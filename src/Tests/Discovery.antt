-- ===== src/Tests/Discovery.antt =====
-- One turn of the discovery of liteservers at a concrete set and config.
use tonlibjson.Prelude.{
  ℕ, ◌≡◌, refl, ap, sym, ◌∙◌, Bool, true, false, ◌&&◌, Option, none, some, List, [], ◌∷◌,
  if◌then◌else◌, Bool-cases, inl, inr,
}
use tonlibjson.Prelude.Int.{ℤ, pos, eqb_ℤ}
use tonlibjson.Prelude.Words.{bytes_eq, bytes_eq_refl, bytes_eq→eq}
use tonlibjson.Prelude.Maps.{Keys}
use tonlibjson.Blocks.Registry.{eqb_ℤ_refl, eqb_ℤ→eq}
use tonlibjson.Router.Discover.{
  LiteServerId, LiteServer, TonConfig, IpAddr, v4, with_liteserver, discover_turn,
}
use tonlibjson.Router.Discovered.{apply_changes, serves, named, HasUniqueIds, discover_turn_lem}

both_true : (a b : Bool) → (a && b) ≡ true → (a ≡ true) × (b ≡ true)
both_true true b h = (refl, h)
both_true false b h = cc

-- The equality of ids, which the source derives from that of their fields.
abbrev same_id : LiteServerId → LiteServerId → Bool
same_id a b = bytes_eq a.type_name b.type_name && bytes_eq a.key b.key

same_id_refl : (a : LiteServerId) → same_id a a ≡ true
same_id_refl a = rw (bytes_eq_refl a.type_name, bytes_eq_refl a.key)

id_eq : (a b : LiteServerId) → a.type_name ≡ b.type_name → a.key ≡ b.key → a ≡ b
id_eq a b h k = cc

same_id→eq : (a b : LiteServerId) → same_id a b ≡ true → a ≡ b
same_id→eq a b h =
    let (t, k) = both_true (bytes_eq a.type_name b.type_name) (bytes_eq a.key b.key) h in
    id_eq a b (bytes_eq→eq a.type_name b.type_name t) (bytes_eq→eq a.key b.key k)

abbrev ids : Keys LiteServerId
ids = record { same = λ a b. same_id a b; same_refl = same_id_refl; same→eq = same_id→eq }

-- Equality of optional values by that of the values.
abbrev same_option : {A : Type 0} → Keys A → Option A → Option A → Bool
same_option keys none none = true
same_option keys none (some b) = false
same_option keys (some a) none = false
same_option keys (some a) (some b) = keys.same a b

same_option_refl : {A : Type 0} → (keys : Keys A) (o : Option A) → same_option keys o o ≡ true
same_option_refl keys none = refl
same_option_refl keys (some a) = keys.same_refl a

same_option→eq :
    {A : Type 0} → (keys : Keys A) (o p : Option A) → same_option keys o p ≡ true → o ≡ p
same_option→eq keys none none h = refl
same_option→eq keys none (some b) h = cc
same_option→eq keys (some a) none h = cc
same_option→eq keys (some a) (some b) h = ap (λ x. some x) (keys.same→eq a b h)

abbrev words : Keys (List ℕ)
words = record { same = λ a b. bytes_eq a b; same_refl = bytes_eq_refl; same→eq = bytes_eq→eq }

abbrev ints : Keys ℤ
ints = record { same = λ a b. eqb_ℤ a b; same_refl = eqb_ℤ_refl; same→eq = eqb_ℤ→eq }

abbrev same_server : LiteServer → LiteServer → Bool
same_server a b =
    same_id a.id b.id
    && (same_option ints a.ip b.ip
        && (same_option words a.host b.host && eqb_ℤ (pos a.port) (pos b.port)))

same_server_refl : (a : LiteServer) → same_server a a ≡ true
same_server_refl a = rw (
  same_id_refl a.id,
  same_option_refl ints a.ip,
  same_option_refl words a.host,
  eqb_ℤ_refl (pos a.port),
)

pos_inj : (m n : ℕ) → pos m ≡ pos n → m ≡ n
pos_inj m n h = cc

server_eq :
    (a b : LiteServer) → a.id ≡ b.id → a.ip ≡ b.ip → a.host ≡ b.host → a.port ≡ b.port → a ≡ b
server_eq a b h k l m = cc

same_server→eq : (a b : LiteServer) → same_server a b ≡ true → a ≡ b
same_server→eq a b h =
    let (i, h₁) = both_true (same_id a.id b.id) _ h in
    let (p, h₂) = both_true (same_option ints a.ip b.ip) _ h₁ in
    let (o, t) = both_true (same_option words a.host b.host) _ h₂ in
    server_eq a b (same_id→eq a.id b.id i) (same_option→eq ints a.ip b.ip p)
      (same_option→eq words a.host b.host o)
      (pos_inj a.port b.port (eqb_ℤ→eq (pos a.port) (pos b.port) t))

abbrev servers : Keys LiteServer
servers = record {
  same = λ a b. same_server a b;
  same_refl = same_server_refl;
  same→eq = same_server→eq;
}

abbrev server_at : ℕ → Option ℤ → LiteServer
server_at n ip = record {
  id = record { type_name = 9 ∷ []; key = n ∷ [] };
  ip = ip;
  host = if bytes_eq (n ∷ []) (3 ∷ []) then some (5 ∷ []) else none;
  port = 80;
}

abbrev old_set : List LiteServer
old_set = server_at 1 (some (pos 7)) ∷ []

abbrev new_config : TonConfig ℕ
new_config = record { liteservers = server_at 1 (some (pos 8)) ∷ server_at 3 none ∷ []; other = 0 }

old_set_one :
    (l : LiteServer)
    → (if same_server l (server_at 1 (some (pos 7))) then true else false) ≡ true
    → l ≡ server_at 1 (some (pos 7))
old_set_one l h = elim (Bool-cases (same_server l (server_at 1 (some (pos 7))))) [
  | inl e ↦ same_server→eq l (server_at 1 (some (pos 7))) e
  | inr e ↦ let bad : false ≡ true = rw e at h in cc
]

old_set-HasUniqueIds : HasUniqueIds servers old_set
old_set-HasUniqueIds l m h k e = old_set_one l h ∙ sym (old_set_one m k)

abbrev toy_services : List (LiteServerId × TonConfig ℕ)
toy_services =
    (
      record { type_name = 9 ∷ []; key = 1 ∷ [] },
      with_liteserver new_config (server_at 1 (some (pos 7))),
    )
    ∷ []

toy_services-named : (id : LiteServerId) → serves ids id toy_services ≡ named ids id old_set
toy_services-named id =
    elim (Bool-cases (same_id (record { type_name = 9 ∷ []; key = 1 ∷ [] }) id)) [
      | inl e ↦ rw e
      | inr e ↦ rw e
    ]

abbrev lookup_ip : List ℕ → Option (List IpAddr)
lookup_ip host = some (v4 (pos 6) ∷ [])

discover_turn_example :
    serves ids
      (record { type_name = 9 ∷ []; key = 3 ∷ [] })
      (apply_changes ids (discover_turn servers lookup_ip old_set new_config).0 toy_services)
    ≡ named ids
        (record { type_name = 9 ∷ []; key = 3 ∷ [] })
        (discover_turn servers lookup_ip old_set new_config).1
discover_turn_example =
    discover_turn_lem ids servers lookup_ip old_set new_config toy_services old_set-HasUniqueIds
      toy_services-named (record { type_name = 9 ∷ []; key = 3 ∷ [] })
