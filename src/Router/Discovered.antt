-- ===== src/Router/Discovered.antt =====
-- The services of a router that applies the changes of ton-client-util/src/discover/mod.rs.
use tonlibjson.Prelude.{
  ℕ, ◌≡◌, refl, sym, ◌∙◌, Bool, true, false, not, Option, none, some, List, [], ◌∷◌, ◌++◌, keep,
  any, if◌then◌else◌, Bool-cases, inl, inr,
}
use tonlibjson.Prelude.Maps.{Keys, lookup, insert, remove, lookup-insert, lookup-remove}
use tonlibjson.Router.Services.{Change, apply_change}
use tonlibjson.Router.Discover.{
  LiteServerId, LiteServer, TonConfig, IpAddr, with_liteserver, member, resolve_all, difference,
  removals, insertions, discover_turn,
}

abbrev pub is_some : {A : Type 0} → Option A → Bool
is_some none = false
is_some (some a) = true

same_branches : (b : Bool) → (if b then true else true) ≡ true
same_branches true = refl
same_branches false = refl

no_branches : (b : Bool) → (if b then false else false) ≡ false
no_branches true = refl
no_branches false = refl

module _ {A : Type 0} where
  later :
      (s : Keys A) (y x : A) (xs : List A)
      → any (λ z. s.same y z) xs ≡ true
      → any (λ z. s.same y z) (x ∷ xs) ≡ true
  later s y x xs h = elim (Bool-cases (s.same y x)) [ inl e ↦ rw e | inr e ↦ rw e h ]

  any_found :
      (p q : A → Bool) (xs : List A)
      → any q (keep p xs) ≡ true
      → (x : A) × (q x ≡ true) × (p x ≡ true) × ((s : Keys A) → any (λ y. s.same x y) xs ≡ true)
  any_found p q [] h = cc
  any_found p q (x ∷ xs) h = elim (Bool-cases (p x)) [
    | inl e ↦ elim (Bool-cases (q x)) [
      | inl f ↦ (x, f, e, λ s. rw (s.same_refl x))
      | inr f ↦
          let (y, qy, py, there) = any_found p q xs (rw (e, f) at h) in
          (y, qy, py, λ s. later s y x xs (there s))
    ]
    | inr e ↦
        let (y, qy, py, there) = any_found p q xs (rw e at h) in
        (y, qy, py, λ s. later s y x xs (there s))
  ]

  any_kept :
      (s : Keys A) (p q : A → Bool) (x : A) (xs : List A)
      → any (λ z. s.same x z) xs ≡ true
      → p x ≡ true
      → q x ≡ true
      → any q (keep p xs) ≡ true
  any_kept s p q x [] h px qx = cc
  any_kept s p q x (y ∷ xs) h px qx = elim (Bool-cases (s.same x y)) [
    | inl e ↦ let same = s.same→eq x y e in rw (sym same, px, qx)
    | inr e ↦
        let rest = any_kept s p q x xs (rw e at h) px qx in
        elim (Bool-cases (p y)) [
          | inr f ↦ rw f rest
          | inl f ↦ elim (Bool-cases (q y)) [ inl g ↦ rw (f, g) | inr g ↦ rw (f, g) rest ]
        ]
  ]

abbrev pub named : Keys LiteServerId → LiteServerId → List LiteServer → Bool
named ids id ls = any (λ l. ids.same l.id id) ls

module _ {V : Type 0} (ids : Keys LiteServerId) where
  -- The router's services after a list of changes.
  pub apply_changes :
      List (Change LiteServerId (TonConfig V))
      → List (LiteServerId × TonConfig V)
      → List (LiteServerId × TonConfig V)
  apply_changes [] services = services
  apply_changes (c ∷ cs) services = apply_changes cs (apply_change ids c services)

  abbrev pub serves : LiteServerId → List (LiteServerId × TonConfig V) → Bool
  serves id services = is_some (lookup ids id services)

  serves-insert :
      (k j : LiteServerId) (v : TonConfig V) (m : List (LiteServerId × TonConfig V))
      → serves j (insert ids k v m) ≡ (if ids.same k j then true else serves j m)
  serves-insert k j v m = elim (Bool-cases (ids.same k j)) [
    | inl e ↦ rw (lookup-insert ids k j v m, e)
    | inr e ↦ rw (lookup-insert ids k j v m, e)
  ]

  serves-remove :
      (k j : LiteServerId) (m : List (LiteServerId × TonConfig V))
      → serves j (remove ids k m) ≡ (if ids.same k j then false else serves j m)
  serves-remove k j m = elim (Bool-cases (ids.same k j)) [
    | inl e ↦ rw (lookup-remove ids k j m, e)
    | inr e ↦ rw (lookup-remove ids k j m, e)
  ]

  apply-insertions :
      (j : LiteServerId) (config : TonConfig V) (ls : List LiteServer)
      (m : List (LiteServerId × TonConfig V))
      → serves j (apply_changes (insertions config ls) m)
        ≡ (if named ids j ls then true else serves j m)
  unfolding apply_changes apply_change insertions
  apply-insertions j config [] m = refl
  apply-insertions j config (l ∷ ls) m = elim (Bool-cases (ids.same l.id j)) [
    | inl e ↦
        rw
          (
            apply-insertions j config ls (insert ids l.id (with_liteserver config l) m),
            serves-insert l.id j (with_liteserver config l) m,
            e,
          )
          (same_branches (named ids j ls))
    | inr e ↦ rw (
      apply-insertions j config ls (insert ids l.id (with_liteserver config l) m),
      serves-insert l.id j (with_liteserver config l) m,
      e,
    )
  ]

  apply-removals :
      (j : LiteServerId) (ls : List LiteServer) (cs : List (Change LiteServerId (TonConfig V)))
      (m : List (LiteServerId × TonConfig V))
      → (n : List (LiteServerId × TonConfig V)) × (apply_changes (removals ls ++ cs) m
          ≡ apply_changes cs n)
        × (serves j n ≡ (if named ids j ls then false else serves j m))
  unfolding apply_changes apply_change removals
  apply-removals j [] cs m = (m, refl, refl)
  apply-removals j (l ∷ ls) cs m =
      let (n, same, left) = apply-removals j ls cs (remove ids l.id m) in
      (
        n,
        same,
        elim (Bool-cases (ids.same l.id j)) [
          | inl e ↦ rw (left, serves-remove l.id j m, e) (no_branches (named ids j ls))
          | inr e ↦ rw (left, serves-remove l.id j m, e)
        ],
      )

-- Two servers of a set have two ids.
abbrev pub HasUniqueIds : Keys LiteServer → List LiteServer → Type 0
HasUniqueIds servers ls =
    (l m : LiteServer)
    → member servers l ls ≡ true
    → member servers m ls ≡ true
    → l.id ≡ m.id
    → l ≡ m

module _ (ids : Keys LiteServerId) (servers : Keys LiteServer) (j : LiteServerId)
    (old new : List LiteServer) where
  abbrev has_id : LiteServer → Bool
  has_id l = ids.same l.id j

  -- Whether an id is served after the servers that are gone are removed and the new ones inserted.
  abbrev Remains : Type 0
  Remains =
      (if named ids j (difference servers new old)
        then true
        else (if named ids j (difference servers old new) then false else named ids j old))
      ≡ named ids j new

  all_kept : (ls : List LiteServer) → keep (λ l. true) ls ≡ ls
  all_kept [] = refl
  all_kept (l ∷ ls) = rw (all_kept ls)

  named_found :
      (ls : List LiteServer)
      → named ids j ls ≡ true
      → (l : LiteServer) × (has_id l ≡ true) × (member servers l ls ≡ true)
  named_found ls h =
      let (l, named_l, _, there) =
        any_found (λ l. true) (λ l. ids.same l.id j) ls (rw (all_kept ls) h) in
      (l, named_l, there servers)

  old_remains :
      (l : LiteServer)
      → HasUniqueIds servers old
      → has_id l ≡ true
      → member servers l new ≡ true
      → member servers l old ≡ true
      → named ids j (difference servers old new) ≡ false
  unfolding difference
  old_remains l unique named_l in_new in_old =
      elim (Bool-cases (named ids j (difference servers old new))) [
        | inr e ↦ e
        | inl e ↦
            let (r, named_r, gone, there) =
              any_found (λ l. not (member servers l new)) (λ l. ids.same l.id j) old e in
            let same : l ≡ r =
              unique l r in_old (there servers)
                (ids.same→eq l.id j named_l ∙ sym (ids.same→eq r.id j named_r)) in
            let bad : not (member servers l new) ≡ true = rw same gone in
            let worse : false ≡ true = rw in_new at bad in cc
      ]

  named_kept :
      (p : LiteServer → Bool) (l : LiteServer) (ls : List LiteServer)
      → has_id l ≡ true
      → member servers l ls ≡ true
      → p l ≡ true
      → named ids j (keep p ls) ≡ true
  named_kept p l ls named_l there pl =
      any_kept servers p (λ l. ids.same l.id j) l ls there pl named_l

  named_in :
      (l : LiteServer) (ls : List LiteServer)
      → has_id l ≡ true
      → member servers l ls ≡ true
      → named ids j ls ≡ true
  named_in l ls named_l there = rw (all_kept ls) at (named_kept (λ l. true) l ls named_l there refl)

  new_remains : HasUniqueIds servers old → named ids j new ≡ true → Remains
  unfolding difference
  new_remains unique h =
      let (l, named_l, in_new) = named_found new h in
      elim (Bool-cases (member servers l old)) [
        | inl e ↦
            rw (old_remains l unique named_l in_new e, named_in l old named_l e, h)
              (same_branches (named ids j (difference servers new old)))
        | inr e ↦
            let fresh : not (member servers l old) ≡ true = rw e in
            rw (named_kept (λ l. not (member servers l old)) l new named_l in_new fresh, h)
      ]

  not_true : (b : Bool) → (b ≡ true → false ≡ true) → b ≡ false
  not_true true f = sym (f refl)
  not_true false f = refl

  gone_remains : named ids j new ≡ false → Remains
  unfolding difference
  gone_remains h =
      let none_inserted : named ids j (difference servers new old) ≡ false =
        not_true (named ids j (difference servers new old)) (λ e.
          let (l, named_l, _, there) =
            any_found (λ l. not (member servers l old)) (λ l. ids.same l.id j) new e in
          sym h ∙ named_in l new named_l (there servers)) in
      elim (Bool-cases (named ids j old)) [
        | inr e ↦ rw (none_inserted, e, h) (no_branches (named ids j (difference servers old new)))
        | inl e ↦
            let (l, named_l, in_old) = named_found old e in
            let away : member servers l new ≡ false =
              not_true (member servers l new) (λ f. sym h ∙ named_in l new named_l f) in
            let gone : not (member servers l new) ≡ true = rw away in
            rw (
              none_inserted,
              named_kept (λ l. not (member servers l new)) l old named_l in_old gone,
              h,
            )
      ]

  remains : HasUniqueIds servers old → Remains
  remains unique = elim (Bool-cases (named ids j new)) [
    | inl e ↦ new_remains unique e
    | inr e ↦ gone_remains e
  ]

-- A router that serves the ids of the old set, and applies the changes that a new config makes, then
-- serves exactly the ids of the new set, when no two servers of the old set share an id.
pub discover_turn_lem :
    {V : Type 0} (ids : Keys LiteServerId) (servers : Keys LiteServer)
    (lookup_ip : List ℕ → Option (List IpAddr)) (old : List LiteServer) (config : TonConfig V)
    (services : List (LiteServerId × TonConfig V))
    → HasUniqueIds servers old
    → ((id : LiteServerId) → serves ids id services ≡ named ids id old)
    → (id : LiteServerId)
    → serves ids id (apply_changes ids (discover_turn servers lookup_ip old config).0 services)
      ≡ named ids id (discover_turn servers lookup_ip old config).1
unfolding discover_turn
discover_turn_lem ids servers lookup_ip old config services unique before id =
    let new = resolve_all servers lookup_ip config.liteservers [] in
    let removed = difference servers old new in
    let inserted = difference servers new old in
    let (n, same, left) = apply-removals ids id removed (insertions config inserted) services in
    rw (same, apply-insertions ids id config inserted n, left, before id)
      (remains ids servers id old new unique)
