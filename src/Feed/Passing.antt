-- ===== src/Feed/Passing.antt =====
-- src/feed.cpp: passing an update on to the children, and giving up a pull that has not been answered.
use rappel.Base.{
  ℕ, ◌<◌, ◌≡◌, refl, ap, sym, ◌∙◌, inl, inr, true, false, not, ◌&&◌, List, [], ◌∷◌, ◌++◌, map, some,
  arith, length, le→leb, ◌==◌, ==_refl, ==_iff, Bool-cases, ok,
}
use mathlib.Core.List.{append_assoc, append-nil}
use rappel.Base.Map.{lookup, erase, has, has-erase, lookup_of_has}
use rappel.Base.Int.{ℤ}
use rappel.Messages.{Outbox}
use rappel.Feed.{Feed, EntryDetails, add_entry}
use rappel.Feed.Cache.{magic_key}
use rappel.Feed.Window.{Inv, add_entry_lem}
use rappel.Feed.Pull.{
  entry_message, send_entry, send_to_all, send_entry_to_children, mark_pull_as_failed,
}

send_to_all_lem :
    (f : Feed) (sent : Outbox) (seq : ℕ) (d : EntryDetails) (nodes : List ℕ)
    → lookup seq f.cache ≡ some d
    → send_to_all f sent seq nodes
      ≡ ok (sent ++ map (λ (c : ℕ). entry_message f seq c false d) nodes)
unfolding send_to_all send_entry
send_to_all_lem f sent seq d [] e = ap ok (sym (append-nil sent))
send_to_all_lem f sent seq d (c ∷ cs) e = rw e (
    send_to_all_lem f (sent ++ entry_message f seq c false d ∷ []) seq d cs e
    ∙ ap ok (append_assoc sent (entry_message f seq c false d ∷ []) _))

-- An update that has been added to a sound feed, whether or not it was there, can be sent to the
-- children at once: `send_entry_to_children` fails no assertion, hands over one message for each
-- child, in order, with what the cache has for the update, and returns their number.
pub add_entry-send_entry_to_children :
    (size : ℕ) (f : Feed) (seq : ℕ) (msg : List ℕ) (emission_time : ℤ) (sent : Outbox)
    → Inv size f
    → 0 < size
    → seq < magic_key
    → (f' : Feed) × (d : EntryDetails) × (add_entry size f seq msg emission_time ≡ ok f')
      × (lookup seq f'.cache ≡ some d)
      × (send_entry_to_children f' sent seq
          ≡ ok (
            length f'.children,
            sent ++ map (λ (c : ℕ). entry_message f' seq c false d) f'.children,
          ))
unfolding send_entry_to_children
add_entry-send_entry_to_children size f seq msg time sent v h small =
    let (f', e, a) = add_entry_lem size f seq msg time v h small in
    let there : has seq f'.cache ≡ true = a.cached seq ∙ rw (==_refl seq) refl in
    let (d, l) = lookup_of_has seq f'.cache there in
    (
      f',
      d,
      e,
      l,
      rw
          (
            le→leb seq f'.highest_update_seq (a.inv.keys seq there),
            there,
            send_to_all_lem f' sent seq d f'.children l,
          )
          refl,
    )

-- `mark_pull_as_failed` on a sound feed, for an update that was asked of this neighbour or has
-- come, fails no assertion. The update is not on its way any more, so that it can be asked for
-- again; every other one, and all of the feed if the update has come, is as it was, and the feed
-- stays sound.
pub mark_pull_as_failed_lem :
    (size : ℕ) (f : Feed) (seq src : ℕ)
    → Inv size f
    → (has seq f.cache ≡ false → lookup seq f.missing_entries ≡ some src)
    → (f' : Feed) × (mark_pull_as_failed f seq src ≡ ok f')
      × ((k : ℕ) → has k f'.missing_entries ≡ (not (seq == k) && has k f.missing_entries))
      × (f' ≡ record f { missing_entries = f'.missing_entries })
      × (has seq f.cache ≡ true → f' ≡ f)
      × Inv size f'
unfolding mark_pull_as_failed
mark_pull_as_failed_lem size f seq src v asked = elim (Bool-cases (has seq f.cache)) [
  | inl come ↦
      let gone : has seq f.missing_entries ≡ false = ground (arith, v.apart seq) in
      (
        f,
        rw (come, gone) refl,
        (λ k. elim (Bool-cases (seq == k)) [
          | inl e ↦ rw e (sym (ap (λ j. has j f.missing_entries) ((==_iff seq k).0 e)) ∙ gone)
          | inr e ↦ rw e refl
        ]),
        refl,
        (λ e. refl),
        v,
      )
  | inr waits ↦
      let way : lookup seq f.missing_entries ≡ some src = asked waits in
      let f' : Feed = record f { missing_entries = erase seq f.missing_entries } in
      let gone : has seq f'.missing_entries ≡ false =
        has-erase seq seq f.missing_entries ∙ rw (==_refl seq) refl in
      (
        f',
        rw (waits, way, ==_refl src, gone) refl,
        (λ k. ground (arith, has-erase seq k f.missing_entries)),
        refl,
        (λ e. cc),
        record {
          keys = v.keys;
          window = v.window;
          frontier = v.frontier;
          order = v.order;
          apart = λ k m. v.apart k (ground (arith, has-erase seq k f.missing_entries));
          small = v.small;
        },
      )
]
