-- ===== src/Neighbor/Roles.antt =====
-- src/neighbor.cpp: the list of a peer's roles, `add_role` and `remove_role`.
use rappel.Base.{
  ℕ, ◌≡◌, ◌≢◌, refl, ap, sym, ◌∙◌, inl, inr, Bool, true, false, not, ◌&&◌, ◌||◌, List, [], ◌∷◌,
  ◌++◌, none, arith, ◌==◌, Bool-cases, Option-cases, ok, ==_refl,
}
use rappel.Base.Map.{lookup, lookup-erase}
use rappel.Base.Int.{ℤ}
use rappel.Events.{no_such_event_id}
use rappel.Timer.{Timer, cancel_event}
use rappel.Timer.Queue.{EventQueue}
use rappel.Neighbor.{
  Neighbor, Role, RoleInfo, eq_role, finds, erase_role, new_role, is_empty, plays_role, add_role,
  remove_role,
}

-- No role is listed twice.
abbrev pub Once : List RoleInfo → Type 0
Once [] = Unit
Once (i ∷ is) = (finds i.role is ≡ false) × Once is

pub record Inv (n : Neighbor) : Type 0 where
  pub some_role : is_empty n.roles ≡ false
  pub checked : n.node_check_event_id ≢ no_such_event_id
  pub once : Once n.roles

-- Equal roles are equal to the same roles.
pub eq_role_refl : (a : Role) → eq_role a a ≡ true
eq_role_refl a = ground arith

pub eq_role_sym : (a b : Role) → eq_role a b ≡ eq_role b a
eq_role_sym a b = ground arith

pub eq_role_trans : (a b c : Role) → eq_role a b ≡ true → eq_role a c ≡ eq_role b c
eq_role_trans a b c e = ground arith

pub finds-eq : (a b : Role) (is : List RoleInfo) → eq_role a b ≡ true → finds a is ≡ finds b is
finds-eq a b [] e = refl
finds-eq a b (i ∷ is) e =
    ap (λ x. x || finds a is) (eq_role_trans a b i.role e)
    ∙ ap (λ x. eq_role b i.role || x) (finds-eq a b is e)

finds-append :
    (a : Role) (is : List RoleInfo) (x : RoleInfo)
    → finds a (is ++ x ∷ []) ≡ (finds a is || eq_role a x.role)
finds-append a [] x = elim (Bool-cases (eq_role a x.role)) [ inl e ↦ rw e refl | inr e ↦ rw e refl ]
finds-append a (i ∷ is) x = elim (Bool-cases (eq_role a i.role)) [
  | inl e ↦ rw e refl
  | inr e ↦ rw e (finds-append a is x)
]

finds-erase :
    (role a : Role) (is : List RoleInfo)
    → Once is
    → finds a (erase_role role is) ≡ (not (eq_role role a) && finds a is)
finds-erase role a [] o = elim (Bool-cases (eq_role role a)) [
  | inl e ↦ rw e refl
  | inr e ↦ rw e refl
]
finds-erase role a (i ∷ is) o = elim (Bool-cases (eq_role role i.role)) [
  | inl here ↦ elim (Bool-cases (eq_role role a)) [
    | inl e ↦
        let same : eq_role a i.role ≡ true = sym (eq_role_trans role a i.role e) ∙ here in
        rw (here, e, finds-eq a i.role is same) o.0
    | inr e ↦
        let other : eq_role a i.role ≡ false =
          eq_role_sym a i.role ∙ sym (eq_role_trans role i.role a here) ∙ e in
        rw (here, e, other) refl
  ]
  | inr there ↦ elim (Bool-cases (eq_role a i.role)) [
    | inl e ↦
        let other : eq_role role a ≡ false =
          eq_role_sym role a ∙ eq_role_trans a i.role role e ∙ eq_role_sym i.role role ∙ there in
        rw (there, e, other) refl
    | inr e ↦ rw (there, e) (finds-erase role a is o.1)
  ]
]

Once-erase : (role : Role) (is : List RoleInfo) → Once is → Once (erase_role role is)
Once-erase role [] o = tt
Once-erase role (i ∷ is) o = elim (Bool-cases (eq_role role i.role)) [
  | inl here ↦ rw here o.1
  | inr there ↦ rw there (
    finds-erase role i.role is o.1 ∙ ap (λ b. not (eq_role role i.role) && b) o.0 ∙ rw there refl,
    Once-erase role is o.1,
  )
]

Once-append :
    (is : List RoleInfo) (x : RoleInfo) → Once is → finds x.role is ≡ false → Once (is ++ x ∷ [])
Once-append [] x o h = (refl, tt)
Once-append (i ∷ is) x o h = elim (Bool-cases (eq_role x.role i.role)) [
  | inl e ↦ let never = rw e at h in cc
  | inr e ↦ (
    finds-append i.role is x
        ∙ ap (λ b. b || eq_role i.role x.role) o.0
        ∙ eq_role_sym i.role x.role
        ∙ e,
    Once-append is x o.1 (rw e at h),
  )
]

erase_role-append :
    (role : Role) (is : List RoleInfo) (now : ℤ)
    → finds role is ≡ false
    → erase_role role (is ++ new_role role now ∷ []) ≡ is
erase_role-append role [] now h = rw (eq_role_refl role) refl
erase_role-append role (i ∷ is) now h = elim (Bool-cases (eq_role role i.role)) [
  | inl e ↦ let never = rw e at h in cc
  | inr e ↦ rw e (ap (λ l. i ∷ l) (erase_role-append role is now (rw e at h)))
]

pub plays_role_lem : {n : Neighbor} → Inv n → (r : Role) → plays_role n r ≡ ok (finds r n.roles)
unfolding plays_role
plays_role_lem {n} v r =
    let checked : (n.node_check_event_id == no_such_event_id) ≡ false = ground (arith, v.checked) in
    rw (v.some_role, checked) refl

append_some : (is : List RoleInfo) (x : RoleInfo) → is_empty (is ++ x ∷ []) ≡ false
append_some [] x = refl
append_some (i ∷ is) x = refl

-- `add_role` for a role that the peer does not play fails no assertion: afterwards the peer plays
-- this role and those that it played before, none of them twice, and it has the same check.
-- `remove_role` then gives the peer back as it was, says that roles remain, and leaves the timer
-- alone.
pub add_role-remove_role :
    (pq : EventQueue) (n : Neighbor) (now : ℤ) (role : Role) (t : Timer (pq.Queue))
    → Inv n
    → plays_role n role ≡ ok false
    → (n' : Neighbor) × (add_role n now role ≡ ok n')
      × ((r : Role) → plays_role n' r ≡ ok (finds r n.roles || eq_role r role))
      × Inv n'
      × (remove_role pq n' t role ≡ ok (false, n, t))
unfolding add_role remove_role
add_role-remove_role pq n now role t v new =
    let absent : finds role n.roles ≡ false = let l = plays_role_lem v role in cc in
    let n' : Neighbor = record n { roles = n.roles ++ new_role role now ∷ [] } in
    let v' : Inv n' = record {
      some_role = append_some n.roles (new_role role now);
      checked = v.checked;
      once = Once-append n.roles (new_role role now) v.once absent;
    } in
    let found : finds role n'.roles ≡ true =
      finds-append role n.roles (new_role role now)
      ∙ ap (λ b. finds role n.roles || b) (eq_role_refl role)
      ∙ rw absent refl in
    (
      n',
      rw (v.some_role, new, plays_role_lem v' role, found) refl,
      (λ r. plays_role_lem v' r ∙ ap ok (finds-append r n.roles (new_role role now))),
      v',
      rw
          (
            v'.some_role,
            plays_role_lem v' role,
            found,
            erase_role-append role n.roles now absent,
            v.some_role,
            new,
          )
          refl,
    )

cancelled :
    (pq : EventQueue) (t : Timer (pq.Queue)) (id : ℕ)
    → lookup id (cancel_event pq t id).1.events ≡ none
unfolding cancel_event
cancelled pq t id = elim (Option-cases (lookup id t.events)) [
  | inl e ↦ rw (e, cancel_event) e
  | inr (ev, e) ↦ rw (e, cancel_event) (lookup-erase id id t.events ∙ rw (==_refl id) refl)
]

-- `remove_role` for a role that the peer plays fails no assertion, the one that the role is gone
-- included, and takes away this role and no other. It says whether no role is left: then the
-- event of the periodic check is not pending any more; else the peer is still sound and the timer
-- as it was.
pub remove_role_lem :
    (pq : EventQueue) (n : Neighbor) (t : Timer (pq.Queue)) (role : Role)
    → Inv n
    → plays_role n role ≡ ok true
    → (last : Bool) × (n' : Neighbor) × (t' : Timer (pq.Queue)) × (remove_role pq n t role
        ≡ ok (last, n', t'))
      × ((r : Role) → finds r n'.roles ≡ (not (eq_role role r) && finds r n.roles))
      × (is_empty n'.roles ≡ last)
      × (last ≡ true
          → (n'.node_check_event_id ≡ no_such_event_id)
            × (lookup n.node_check_event_id t'.events ≡ none))
      × (last ≡ false → Inv n' × (t' ≡ t))
unfolding remove_role
remove_role_lem pq n t role v plays =
    let checked : (n.node_check_event_id == no_such_event_id) ≡ false = ground (arith, v.checked) in
    let n' : Neighbor = record n { roles = erase_role role n.roles } in
    elim (Bool-cases (is_empty n'.roles)) [
      | inl none_left ↦ (
        true,
        record n' { node_check_event_id = no_such_event_id },
        (cancel_event pq t n.node_check_event_id).1,
        rw (v.some_role, plays, none_left, checked) refl,
        (λ r. finds-erase role r n.roles v.once),
        none_left,
        (λ e. (refl, cancelled pq t n.node_check_event_id)),
        λ e. cc,
      )
      | inr some_left ↦
          let v' : Inv n' = record {
            some_role = some_left;
            checked = v.checked;
            once = Once-erase role n.roles v.once;
          } in
          let gone : finds role n'.roles ≡ false =
            finds-erase role role n.roles v.once ∙ rw (eq_role_refl role) refl in
          (
            false,
            n',
            t,
            rw (v.some_role, plays, some_left, plays_role_lem v' role, gone) refl,
            (λ r. finds-erase role r n.roles v.once),
            some_left,
            (λ e. cc),
            λ e. (v', refl),
          )
    ]
