-- ===== src/Neighbor/Updates.antt =====
-- src/neighbor.cpp: the times that a peer keeps for each role, and the updates of them.
use rappel.Base.{
  ◌≡◌, refl, ap, sym, ◌∙◌, inl, inr, true, false, ◌||◌, List, [], ◌∷◌, some, arith, if◌then◌else◌,
  Bool-cases, Result, ok, ◌>>◌, assert, present, unknown_role, unreachable,
}
use rappel.Base.Int.{ℤ}
use rappel.Neighbor.{
  Neighbor, Role, RoleInfo, eq_role, finds, first_of, change_first, is_empty, plays_role, entry_of,
  update_role, get_last_sent_request_in_role, get_last_heard_request_in_role,
  get_last_heard_reply_in_role, get_last_heard_in_role, update_sent_request_in_role,
  update_heard_request_in_role, update_heard_reply_in_role, max_ℤ,
}
use rappel.Neighbor.Roles.{Inv, Once, plays_role_lem, eq_role_sym, eq_role_trans}

abbrev KeepsRole : (RoleInfo → RoleInfo) → Type 0
KeepsRole change = (i : RoleInfo) → (change i).role ≡ i.role

finds-change_first :
    (role r : Role) (change : RoleInfo → RoleInfo) (is : List RoleInfo)
    → KeepsRole change
    → finds r (change_first role change is) ≡ finds r is
finds-change_first role r change [] k = refl
finds-change_first role r change (i ∷ is) k = elim (Bool-cases (eq_role role i.role)) [
  | inl e ↦ rw e (ap (λ a. eq_role r a || finds r is) (k i))
  | inr e ↦ rw e (ap (λ b. eq_role r i.role || b) (finds-change_first role r change is k))
]

Once-change_first :
    (role : Role) (change : RoleInfo → RoleInfo) (is : List RoleInfo)
    → KeepsRole change
    → Once is
    → Once (change_first role change is)
Once-change_first role change [] k o = tt
Once-change_first role change (i ∷ is) k o = elim (Bool-cases (eq_role role i.role)) [
  | inl e ↦ rw e (ap (λ a. finds a is) (k i) ∙ o.0, o.1)
  | inr e ↦
      rw e
        (finds-change_first role i.role change is k ∙ o.0, Once-change_first role change is k o.1)
]

first_found :
    (role : Role) (is : List RoleInfo)
    → finds role is ≡ true
    → (i : RoleInfo) × (first_of role is ≡ some i)
first_found role [] h = cc
first_found role (i ∷ is) h = elim (Bool-cases (eq_role role i.role)) [
  | inl e ↦ (i, rw e refl)
  | inr e ↦ let (j, f) = first_found role is (rw e at h) in (j, rw e f)
]

first_of-change_first :
    (role : Role) (change : RoleInfo → RoleInfo) (is : List RoleInfo) {i : RoleInfo}
    → KeepsRole change
    → first_of role is ≡ some i
    → first_of role (change_first role change is) ≡ some (change i)
first_of-change_first role change [] k h = cc
first_of-change_first role change (j ∷ is) {i} k h = elim (Bool-cases (eq_role role j.role)) [
  | inl e ↦
      let here : eq_role role (change j).role ≡ true = ap (λ a. eq_role role a) (k j) ∙ e in
      let same : j ≡ i = let h' = rw e at h in cc in rw (e, here) (ap (λ a. some (change a)) same)
  | inr e ↦ rw e (rw e (first_of-change_first role change is {i = i} k (rw e at h)))
]

first_of-other :
    (role r : Role) (change : RoleInfo → RoleInfo) (is : List RoleInfo)
    → KeepsRole change
    → eq_role role r ≡ false
    → first_of r (change_first role change is) ≡ first_of r is
first_of-other role r change [] k h = refl
first_of-other role r change (i ∷ is) k h = elim (Bool-cases (eq_role role i.role)) [
  | inl e ↦
      let miss : eq_role r i.role ≡ false =
        eq_role_sym r i.role ∙ sym (eq_role_trans role i.role r e) ∙ h in
      let miss' : eq_role r (change i).role ≡ false = ap (λ a. eq_role r a) (k i) ∙ miss in
      rw (e, miss, miss') refl
  | inr e ↦
      rw e (ap (λ o. if eq_role r i.role then some i else o) (first_of-other role r change is k h))
]

still_some :
    (role : Role) (change : RoleInfo → RoleInfo) (is : List RoleInfo)
    → is_empty is ≡ false
    → is_empty (change_first role change is) ≡ false
still_some role change [] h = cc
still_some role change (i ∷ is) h = elim (Bool-cases (eq_role role i.role)) [
  | inl e ↦ rw e refl
  | inr e ↦ rw e refl
]

entry_of_lem :
    {n : Neighbor} (v : Inv n) (role : Role)
    → entry_of n role
      ≡ (assert (finds role n.roles) unknown_role >> present (first_of role n.roles) unreachable)
unfolding entry_of
entry_of_lem v role = rw (v.some_role, plays_role_lem v role) refl

found :
    {n : Neighbor} (v : Inv n) (role : Role) {i : RoleInfo}
    → entry_of n role ≡ ok i
    → (finds role n.roles ≡ true) × (first_of role n.roles ≡ some i)
found {n} v role e = let l = entry_of_lem v role in ground arith

update_role_lem :
    {n : Neighbor} (v : Inv n) (now : ℤ) (role : Role) (change : RoleInfo → RoleInfo)
    → KeepsRole change
    → {i : RoleInfo} → entry_of n role ≡ ok i
    → (n' : Neighbor) × (update_role n now role change ≡ ok n')
      × Inv n'
      × (entry_of n' role ≡ ok (change i))
      × ((r : Role) → eq_role role r ≡ false → entry_of n' r ≡ entry_of n r)
unfolding update_role
update_role_lem {n} v now role change k {i} was =
    let (there, f) = found v role was in
    let n' : Neighbor = record n {
      last_heard_from = now;
      roles = change_first role change n.roles;
    } in
    let v' : Inv n' = record {
      some_role = still_some role change n.roles v.some_role;
      checked = v.checked;
      once = Once-change_first role change n.roles k v.once;
    } in
    (
      n',
      rw was refl,
      v',
      entry_of_lem v' role
          ∙ rw
              (
                finds-change_first role role change n.roles k,
                there,
                first_of-change_first role change n.roles k f,
              )
              refl,
      λ r h.
          entry_of_lem v' r
          ∙ rw
              (finds-change_first role r change n.roles k, first_of-other role r change n.roles k h)
              (sym (entry_of_lem v r)),
    )

-- What the four accessors of a role read.
abbrev pub reads : Neighbor → Role → Result ℤ × Result ℤ × Result ℤ × Result ℤ
reads n role = (
  get_last_sent_request_in_role n role,
  get_last_heard_request_in_role n role,
  get_last_heard_reply_in_role n role,
  get_last_heard_in_role n role,
)

abbrev times : RoleInfo → Result ℤ × Result ℤ × Result ℤ × Result ℤ
times i = (
  ok i.last_sent_request,
  ok i.last_heard_request,
  ok i.last_heard_reply,
  ok (max_ℤ i.last_heard_reply i.last_heard_request),
)

reads_lem :
    (n : Neighbor) (role : Role) {i : RoleInfo} → entry_of n role ≡ ok i → reads n role ≡ times i
unfolding get_last_sent_request_in_role get_last_heard_request_in_role get_last_heard_reply_in_role
    get_last_heard_in_role
reads_lem n role e = rw e refl

reads_same :
    (n n' : Neighbor) (role : Role)
    → entry_of n' role ≡ entry_of n role
    → reads n' role ≡ reads n role
unfolding get_last_sent_request_in_role get_last_heard_request_in_role get_last_heard_reply_in_role
    get_last_heard_in_role
reads_same n n' role e = rw e refl

-- Each update of a role that the peer plays fails no assertion and leaves the peer sound. The
-- accessor of the time that it sets reads the time of the call, in this role; the other two times
-- of the role are as they were, and the time last heard in the role is the later of its two;
-- every accessor of every other role reads what it did.
pub updates_lem :
    (n : Neighbor) (now : ℤ) (role : Role)
    → Inv n
    → plays_role n role ≡ ok true
    → (sent request reply : ℤ) × (n₁ : Neighbor) × (n₂ : Neighbor) × (n₃ : Neighbor) × (reads n role
        ≡ (ok sent, ok request, ok reply, ok (max_ℤ reply request)))
      × (update_sent_request_in_role n now role ≡ ok n₁)
      × (update_heard_request_in_role n now role ≡ ok n₂)
      × (update_heard_reply_in_role n now role ≡ ok n₃)
      × (reads n₁ role ≡ (ok now, ok request, ok reply, ok (max_ℤ reply request)))
      × (reads n₂ role ≡ (ok sent, ok now, ok reply, ok (max_ℤ reply now)))
      × (reads n₃ role ≡ (ok sent, ok request, ok now, ok (max_ℤ now request)))
      × ((r : Role)
          → eq_role role r ≡ false
          → (reads n₁ r ≡ reads n r) × (reads n₂ r ≡ reads n r) × (reads n₃ r ≡ reads n r))
      × Inv n₁
      × Inv n₂
      × Inv n₃
unfolding update_sent_request_in_role update_heard_request_in_role update_heard_reply_in_role
updates_lem n now role v plays =
    let there : finds role n.roles ≡ true = let l = plays_role_lem v role in cc in
    let (i, f) = first_found role n.roles there in
    let was : entry_of n role ≡ ok i = entry_of_lem v role ∙ rw (there, f) refl in
    let (n₁, e₁, v₁, s₁, o₁) =
      update_role_lem v now role (λ i. record i { last_sent_request = now }) (λ i. refl) was in
    let (n₂, e₂, v₂, s₂, o₂) =
      update_role_lem v now role (λ i. record i { last_heard_request = now }) (λ i. refl) was in
    let (n₃, e₃, v₃, s₃, o₃) =
      update_role_lem v now role (λ i. record i { last_heard_reply = now }) (λ i. refl) was in
    (
      i.last_sent_request,
      i.last_heard_request,
      i.last_heard_reply,
      n₁,
      n₂,
      n₃,
      reads_lem n role was,
      e₁,
      e₂,
      e₃,
      reads_lem n₁ role s₁,
      reads_lem n₂ role s₂,
      reads_lem n₃ role s₃,
      (λ r h. (reads_same n n₁ r (o₁ r h), reads_same n n₂ r (o₂ r h), reads_same n n₃ r (o₃ r h))),
      v₁,
      v₂,
      v₃,
    )
