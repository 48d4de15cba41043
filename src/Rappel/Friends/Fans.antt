-- ===== src/Rappel/Friends/Fans.antt =====
-- src/rappel.cpp: the fans of a node, the nodes that have it as a friend.
use rappel.Base.{
  ℕ, ◌≤◌, ◌≡◌, ◌≢◌, inl, inr, refl, ap, ◌∙◌, Bool, true, false, ◌||◌, ◌++◌, ◌⊎◌, List, [], ◌∷◌,
  Option, some, none, arith, length, ltb, leb, ◌==◌, ==_iff, if◌then◌else◌, Bool-cases, ok,
}
use rappel.Base.Map.{
  Map, lookup, insert, has, has-insert, lookup_of_has, lookup_of_not_has, lookup-insert,
}
use rappel.Base.Keys.{
  Above, Sorted, insert-Sorted, length-insert_new, length-insert_old, lookup-Above,
}
use rappel.Base.Int.{ℤ, pos, ◌+ℤ◌, ltb_ℤ}
use rappel.Messages.{Coordinate, add_friend_reply, Message}
use rappel.Events.{application}
use rappel.Rappel.{Rappel, Options, add_candidate, add_candidates, get_candidate_list, safe_send}
use rappel.Rappel.Friends.Kept.{
  Kept, Kept-trans, add_candidate-Kept, add_candidates-Kept, get_candidate_list-Kept,
}
use rappel.Rappel.Friends.{purge_loop, take_fan, receive_add_friend_req}

purge_loop-Above :
    (now : ℤ) (interval k : ℕ) (m : Map ℤ) → Above k m → Above k (purge_loop now interval m)
unfolding purge_loop
purge_loop-Above now interval k [] a = a
purge_loop-Above now interval k ((j, c) ∷ m) a = elim (Bool-cases (ltb_ℤ (c +ℤ pos interval) now)) [
  | inl old ↦ rw old (purge_loop-Above now interval k m a.1)
  | inr new ↦ rw new (a.0, purge_loop-Above now interval k m a.1)
]

purge_loop-Sorted :
    (now : ℤ) (interval : ℕ) (m : Map ℤ) → Sorted m → Sorted (purge_loop now interval m)
unfolding purge_loop
purge_loop-Sorted now interval [] s = s
purge_loop-Sorted now interval ((j, c) ∷ m) s = elim (Bool-cases (ltb_ℤ (c +ℤ pos interval) now)) [
  | inl old ↦ rw old (purge_loop-Sorted now interval m s.1)
  | inr new ↦ rw new (purge_loop-Above now interval j m s.0, purge_loop-Sorted now interval m s.1)
]

length-purge_loop :
    (now : ℤ) (interval : ℕ) (m : Map ℤ) → length (purge_loop now interval m) ≤ length m
unfolding purge_loop
length-purge_loop now interval [] = omega arith
length-purge_loop now interval ((j, c) ∷ m) = ground (arith, length-purge_loop now interval m)

-- A fan that stays was heard of in time, and no such fan is purged.
abbrev recent : ℤ → ℕ → Option ℤ → Option ℤ
recent now interval none = none
recent now interval (some c) = if ltb_ℤ (c +ℤ pos interval) now then none else some c

lookup-purge_loop :
    (now : ℤ) (interval k : ℕ) (m : Map ℤ)
    → Sorted m
    → lookup k (purge_loop now interval m) ≡ recent now interval (lookup k m)
unfolding purge_loop lookup
lookup-purge_loop now interval k [] s = refl
lookup-purge_loop now interval k ((j, c) ∷ m) s =
    let rest : lookup k (purge_loop now interval m) ≡ recent now interval (lookup k m) =
      lookup-purge_loop now interval k m s.1 in
    elim (Bool-cases (j == k)) [
      | inl here ↦
          let same : j ≡ k = (==_iff j k).0 here in
          let gone : lookup k m ≡ none = lookup-Above k m (rw same at s.0) in
          elim (Bool-cases (ltb_ℤ (c +ℤ pos interval) now)) [
            | inl old ↦ rw (here, old, rest, gone) refl
            | inr new ↦ rw (here, new) (rw here refl)
          ]
      | inr other ↦ elim (Bool-cases (ltb_ℤ (c +ℤ pos interval) now)) [
        | inl old ↦ rw (other, old) rest
        | inr new ↦ rw (other, new) (rw other rest)
      ]
    ]

module _ (o : Options) (now : ℤ) (fans : Map ℤ) (src : ℕ) (sorted : Sorted fans) where
  -- What becomes of the fans, and of the request.
  pub record Taken (accepted : Bool) (fans' : Map ℤ) : Type 0 where
    pub in_order : Sorted fans'
    pub bounded : length fans' ≤ o.num_fans
    pub answer : has src fans' ≡ accepted
    pub others :
        (k : ℕ) → k ≢ src → lookup k fans' ≡ recent now (o.keep_alive_interval) (lookup k fans)
    pub heard : accepted ≡ true → lookup src fans' ≡ some now

  abbrev purged : Map ℤ
  purged = purge_loop now (o.keep_alive_interval) fans

  kept_order : Sorted purged
  kept_order = purge_loop-Sorted now (o.keep_alive_interval) fans sorted

  kept_bound : length fans ≤ o.num_fans → length purged ≤ o.num_fans
  kept_bound few = let le = length-purge_loop now (o.keep_alive_interval) fans in omega arith

  taken_length :
      length fans ≤ o.num_fans
      → (ltb (length purged) o.num_fans || has src purged) ≡ true
      → length (insert src now purged) ≤ o.num_fans
  taken_length few room = elim (Bool-cases (has src purged)) [
    | inl old ↦
        let (c, e) = lookup_of_has src purged old in
        let same = length-insert_old src now c purged kept_order e in
        let le = kept_bound few in omega arith
    | inr new ↦
        let more = length-insert_new src now purged (lookup_of_not_has src purged new) in
        ground (arith, more)
  ]

  take_fan_lem : length fans ≤ o.num_fans → (let t = take_fan o now fans src in Taken (t.0) (t.1))
  unfolding take_fan
  take_fan_lem few = elim (Bool-cases (ltb (length purged) o.num_fans || has src purged)) [
    | inl room ↦ rw room (record {
      in_order = insert-Sorted src now purged kept_order;
      bounded = taken_length few room;
      answer = ground (arith, has-insert src src now purged);
      others = λ k other.
          rw
            (
              lookup-insert src k now purged,
              lookup-purge_loop now (o.keep_alive_interval) k fans sorted,
            )
            (ground (arith, other));
      heard = λ _. ground (arith, lookup-insert src src now purged);
    })
    | inr full ↦ rw full (record {
      in_order = kept_order;
      bounded = kept_bound few;
      answer = ground (arith, full);
      others = λ k other. lookup-purge_loop now (o.keep_alive_interval) k fans sorted;
      heard = λ h. cc;
    })
  ]

leb-true : {m n : ℕ} → m ≤ n → leb m n ≡ true
leb-true h = ground (arith, h)

-- What the handler answers.
abbrev pub reply :
    {Queue : Type 0} → Rappel Queue → ℕ → ℕ → List ℕ → ℕ → List ℕ → Bool → Bool → Message
reply r src wait candidates pruned next_targets ok_to_add changed = record {
  src = r.node_id;
  dst = src;
  layer = application;
  content = add_friend_reply r.nc wait candidates pruned next_targets ok_to_add changed;
}

module _ (o : Options) (rand : ℕ → ℕ → ℕ → ℕ) (dummy : Coordinate) {Queue : Type 0} where
  -- A request to be a friend, at a node that is online, with its fans in order and no more of them
  -- than the bound, where the candidates and the draw raise no assertion. The handler ends and sends
  -- one answer, to the node that asks. If the filter of this node is newer than the version that the
  -- node knows, the answer says so and is no, and the fans are as they were, none purged. Otherwise
  -- the fans stay within the bound and in order; each node other than the asking one is a fan
  -- afterwards exactly if it was one and has been heard of within the keep-alive interval, at the
  -- same time as before; and the answer is yes exactly if the asking node is a fan afterwards, who
  -- has then been heard of now.
  pub receive_add_friend_req_lem :
      (r : Rappel Queue) (src : ℕ) (nc : Coordinate) (wait : ℕ) (candidates : List ℕ)
      (pruned version : ℕ) (next_targets : List ℕ) (r₁ r₂ : Rappel Queue)
      (c : List ℕ × Rappel Queue) (sorted : Sorted r.fans)
      → length r.fans ≤ o.num_fans
      → r.is_online ≡ true
      → add_candidate o r src nc ≡ ok r₁
      → add_candidates o dummy r₁ candidates ≡ ok r₂
      → get_candidate_list rand r₂ ≡ ok c
      → (let changed = ltb version r.filter.version in
          (r' : Rappel Queue) × (accepted : Bool) × (receive_add_friend_req o rand dummy r src nc
              wait candidates pruned version next_targets
            ≡ ok r')
          × (r'.sent ≡ r.sent ++ reply r src wait c.0 pruned next_targets accepted changed ∷ [])
          × (((changed ≡ true) × (accepted ≡ false) × (r'.fans ≡ r.fans))
              ⊎ ((changed ≡ false) × Taken o (r.timer.time) r.fans src sorted accepted r'.fans)))
  unfolding receive_add_friend_req safe_send
  receive_add_friend_req_lem r src nc wait candidates pruned version next_targets r₁ r₂ c sorted few
        online e₁ e₂ e₃ =
      let kept₂ : Kept r r₂ =
        Kept-trans r r₁ r₂ (add_candidate-Kept o r src nc r₁ e₁)
          (add_candidates-Kept o dummy r₁ candidates r₂ e₂) in
      let kept : Kept r (c.1) =
        Kept-trans r r₂ (c.1) kept₂ (get_candidate_list-Kept rand r₂ c e₃) in
      let fans₂ : r₂.fans ≡ r.fans = ap (λ s. s.fans) kept₂ in
      let filter₂ : r₂.filter ≡ r.filter = ap (λ s. s.filter) kept₂ in
      let timer₂ : r₂.timer ≡ r.timer = ap (λ s. s.timer) kept₂ in
      let nc₂ : r₂.nc ≡ r.nc = ap (λ s. s.nc) kept₂ in
      let on : c.1.is_online ≡ true = ap (λ s. s.is_online) kept ∙ online in
      let id : c.1.node_id ≡ r.node_id = ap (λ s. s.node_id) kept in
      let sent : c.1.sent ≡ r.sent = ap (λ s. s.sent) kept in
      let fits : leb (length r.fans) o.num_fans ≡ true = leb-true few in
      elim (Bool-cases (ltb version r.filter.version)) [
        | inl changed ↦ (
          record c.1 {
            sent = r.sent ++ reply r src wait c.0 pruned next_targets false true ∷ [];
            fans = r.fans;
          },
          false,
          rw (e₁, e₂, e₃, fans₂, filter₂, changed) (rw (fits, on, nc₂, id, sent) refl),
          rw changed refl,
          inl (changed, refl, refl),
        )
        | inr same ↦
            let t = take_fan o (r.timer.time) r.fans src in
            let taken = take_fan_lem o (r.timer.time) r.fans src sorted few in
            (
              record c.1 {
                sent = r.sent ++ reply r src wait c.0 pruned next_targets (t.0) false ∷ [];
                fans = t.1;
              },
              t.0,
              rw (e₁, e₂, e₃, fans₂, filter₂, timer₂, same)
                  (rw (leb-true taken.bounded, on, nc₂, id, sent) refl),
              rw same refl,
              inr (same, taken),
            )
      ]
