-- ===== src/Router/Discover.antt =====
-- ton-client-util/src/discover/mod.rs and config.rs: the changes that a new config makes to the set
-- of liteservers. A string is its bytes, and a set a list without repetition.
use tonlibjson.Prelude.{
  ℕ, Bool, not, Option, none, some, List, [], ◌∷◌, ◌++◌, keep, any, if◌then◌else◌,
}
use tonlibjson.Prelude.Int.{ℤ}
use tonlibjson.Prelude.Maps.{Keys}
use tonlibjson.Router.Services.{Change, insert_service, remove_service}

pub record LiteServerId : Type 0 where
  pub type_name : List ℕ
  pub key : List ℕ

pub record LiteServer : Type 0 where
  pub id : LiteServerId
  pub ip : Option ℤ
  pub host : Option (List ℕ)
  pub port : ℕ

-- `V` is the rest of the config, a JSON value.
pub record TonConfig (V : Type 0) : Type 0 where
  pub liteservers : List LiteServer
  pub other : V

pub data IpAddr : Type 0 where
  v4 : ℤ → IpAddr
  v6 : List ℕ → IpAddr

unfoldable pub with_ip : LiteServer → ℤ → LiteServer
with_ip ls ip = record { id = ls.id; ip = some ip; host = ls.host; port = ls.port }

unfoldable pub with_liteserver : {V : Type 0} → TonConfig V → LiteServer → TonConfig V
with_liteserver config ls = record { liteservers = ls ∷ []; other = config.other }

-- The first address of version 4, if there is one.
abbrev first_v4 : LiteServer → List IpAddr → LiteServer
first_v4 ls [] = ls
first_v4 ls (v4 ip ∷ records) = with_ip ls ip
first_v4 ls (v6 ip ∷ records) = first_v4 ls records

abbrev resolved : LiteServer → Option (List IpAddr) → Option LiteServer
resolved ls none = none
resolved ls (some records) = some (first_v4 ls records)

abbrev by_host : (List ℕ → Option (List IpAddr)) → LiteServer → Option (List ℕ) → Option LiteServer
by_host lookup_ip ls none = some ls
by_host lookup_ip ls (some host) = resolved ls (lookup_ip host)

-- `lookup_ip` is the resolver; `none` is its error.
unfoldable pub apply_dns : (List ℕ → Option (List IpAddr)) → LiteServer → Option LiteServer
apply_dns lookup_ip ls = by_host lookup_ip ls ls.host

module _ (servers : Keys LiteServer) where
  abbrev pub member : LiteServer → List LiteServer → Bool
  member l ls = any (λ m. servers.same l m) ls

  unfoldable pub difference : List LiteServer → List LiteServer → List LiteServer
  difference ls ms = keep (λ l. not (member l ms)) ls

  abbrev with_member : Option LiteServer → List LiteServer → List LiteServer
  with_member none set = set
  with_member (some l) set = if member l set then set else l ∷ set

  -- The set of the servers of a config whose hosts resolve.
  unfoldable pub resolve_all :
      (List ℕ → Option (List IpAddr)) → List LiteServer → List LiteServer → List LiteServer
  resolve_all lookup_ip [] set = set
  resolve_all lookup_ip (l ∷ ls) set =
      resolve_all lookup_ip ls (with_member (apply_dns lookup_ip l) set)

module _ {V : Type 0} where
  unfoldable pub removals : List LiteServer → List (Change LiteServerId (TonConfig V))
  removals [] = []
  removals (l ∷ ls) = remove_service l.id ∷ removals ls

  unfoldable pub insertions :
      TonConfig V → List LiteServer → List (Change LiteServerId (TonConfig V))
  insertions config [] = []
  insertions config (l ∷ ls) = insert_service l.id (with_liteserver config l) ∷ insertions config ls

  -- One turn of the loop of `run`: what is sent, and the new set.
  unfoldable pub discover_turn :
      Keys LiteServer
      → (List ℕ → Option (List IpAddr))
      → List LiteServer
      → TonConfig V
      → List (Change LiteServerId (TonConfig V)) × List LiteServer
  discover_turn servers lookup_ip liteservers config =
      let liteserver_new = resolve_all servers lookup_ip config.liteservers [] in
      (
        removals (difference servers liteservers liteserver_new)
            ++ insertions config (difference servers liteserver_new liteservers),
        liteserver_new,
      )
