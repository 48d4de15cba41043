-- ===== src/Rappel/Updates/Passed.antt =====
-- src/rappel.cpp: an update that the publisher or another node hands to its children.
use rappel.Base.{
  ℕ, ◌+◌, ◌<◌, ◌≡◌, ◌≢◌, refl, ap, ◌∙◌, true, false, List, [], ◌++◌, map, some, arith, ==_refl, ok,
}
use rappel.Base.Map.{lookup, insert, has, lookup-insert}
use rappel.Base.Int.{ℤ, ◌+ℤ◌}
use rappel.Base.Word.{add32}
use rappel.Feed.{Feed, EntryDetails, add_entry}
use rappel.Feed.Cache.{magic_key}
use rappel.Feed.Window.{Inv, Added, add_entry_lem}
use rappel.Feed.Passing.{add_entry-send_entry_to_children}
use rappel.Feed.Pull.{entry_message}
use rappel.Rappel.{Rappel}
use rappel.Rappel.Updates.{add_and_send, publish_update, receive_feed_update}

-- What `add_entry` leaves alone, and what it stores.
add_entry-kept :
    (size : ℕ) (f : Feed) (seq : ℕ) (msg : List ℕ) (time : ℤ) (f' : Feed)
    → add_entry size f seq msg time ≡ ok f'
    → (f'.children ≡ f.children) × (f'.publisher_nc ≡ f.publisher_nc)
unfolding add_entry
add_entry-kept size f seq msg time f' e = ground (arith, e)

add_entry-cache :
    (size : ℕ) (f : Feed) (seq : ℕ) (msg : List ℕ) (time : ℤ) (f' : Feed)
    → has seq f.cache ≡ false
    → add_entry size f seq msg time ≡ ok f'
    → f'.cache ≡ insert seq (record { msg = msg; sync_emission_time = time }) f.cache
unfolding add_entry
add_entry-cache size f seq msg time f' new e = ground (arith, new, e)

module _ (size : ℕ) {Queue : Type 0} where
  -- What becomes of a node that adds an update to a feed and hands it on.
  pub record Passed (r : Rappel Queue) (feed_id : ℕ) (feed : Feed) (seq : ℕ) (given : EntryDetails)
      (r' : Rappel Queue) : Type 0 where
    pub feed' : Feed
    pub details : EntryDetails
    pub stored : lookup feed_id r'.feed_set ≡ some feed'
    pub added : Added size feed seq feed'
    pub entry : lookup seq feed'.cache ≡ some details
    pub new : has seq feed.cache ≡ false → details ≡ given
    pub children : feed'.children ≡ feed.children
    pub told :
        r'.sent ≡ r.sent ++ map (λ (c : ℕ). entry_message feed' seq c false details) feed'.children
    pub others : (k : ℕ) → k ≢ feed_id → lookup k r'.feed_set ≡ lookup k r.feed_set

  add_and_send_lem :
      (r : Rappel Queue) (feed_id : ℕ) (feed : Feed) (seq : ℕ) (msg : List ℕ) (time : ℤ)
      → Inv size feed
      → 0 < size
      → seq < magic_key
      → (r' : Rappel Queue) × (add_and_send size r feed_id feed seq msg time ≡ ok r')
        × Passed r feed_id feed seq (record { msg = msg; sync_emission_time = time }) r'
  unfolding add_and_send
  add_and_send_lem r feed_id feed seq msg time v some_size small =
      let (f₁, e₁, a) = add_entry_lem size feed seq msg time v some_size small in
      let (f', d, e, l, s) =
        add_entry-send_entry_to_children size feed seq msg time r.sent v some_size small in
      let same : f₁ ≡ f' = cc in
      (
        record r {
          feed_set = insert feed_id f' r.feed_set;
          sent = r.sent ++ map (λ (c : ℕ). entry_message f' seq c false d) f'.children;
        },
        rw (e, s) refl,
        record {
          feed' = f';
          details = d;
          stored = lookup-insert feed_id feed_id f' r.feed_set ∙ rw (==_refl feed_id) refl;
          added = rw (← same) a;
          entry = l;
          new = λ absent.
              let given : EntryDetails = record { msg = msg; sync_emission_time = time } in
              let placed : lookup seq f'.cache ≡ some given =
                ap (λ c. lookup seq c) (add_entry-cache size feed seq msg time f' absent e)
                ∙ lookup-insert seq seq given feed.cache
                ∙ rw (==_refl seq) refl in
              cc;
          children = (add_entry-kept size feed seq msg time f' e).0;
          told = refl;
          others = λ k other. lookup-insert feed_id k f' r.feed_set ∙ ground (arith, other);
        },
      )

  pub receive_feed_update_lem :
      (r : Rappel Queue) (feed_id : ℕ) (feed : Feed) (seq : ℕ) (msg : List ℕ) (time : ℤ)
      → lookup feed_id r.feed_set ≡ some feed
      → Inv size feed
      → 0 < size
      → seq < magic_key
      → (r' : Rappel Queue) × (receive_feed_update size r feed_id seq msg time ≡ ok r')
        × Passed r feed_id feed seq (record { msg = msg; sync_emission_time = time }) r'
  unfolding receive_feed_update
  receive_feed_update_lem r feed_id feed seq msg time at v some_size small =
      let (r', e, passed) = add_and_send_lem r feed_id feed seq msg time v some_size small in
      (r', rw at e, passed)

  publish_update_lem :
      (p : Rappel Queue) (feed : Feed)
      → lookup p.node_id p.feed_set ≡ some feed
      → Inv size feed
      → 0 < size
      → feed.latest_update_seq + 1 < magic_key
      → (p' : Rappel Queue) × (publish_update size p true ≡ ok p')
        × Passed p p.node_id feed
            (feed.latest_update_seq + 1)
            (record { msg = []; sync_emission_time = p.timer.time +ℤ p.timer.sync_offset })
            p'
  unfolding publish_update
  publish_update_lem p feed at v some_size small =
      let next : add32 feed.latest_update_seq 1 ≡ feed.latest_update_seq + 1 = omega arith in
      let (p', e, passed) =
        add_and_send_lem p p.node_id feed (feed.latest_update_seq + 1) []
          (p.timer.time +ℤ p.timer.sync_offset) v some_size small in
      (p', rw (at, next) e, passed)

  -- An update from the publisher to a child. With sound feeds at both, `publish_update` ends at the
  -- publisher: the update after the last one, without text and with the synchronised time of now, is in
  -- its feed, and one message with it is sent to each child, in order. Where a node that does not have the update receives
  -- such a message, `receive_feed_update` ends there: the very same update is in its feed, which
  -- stays sound, and goes in one message to each of its children in turn. In both nodes the other
  -- feeds are as they were.
  pub publish_update-receive_feed_update :
      (p r : Rappel Queue) (published received : Feed)
      → lookup p.node_id p.feed_set ≡ some published
      → Inv size published
      → lookup p.node_id r.feed_set ≡ some received
      → Inv size received
      → 0 < size
      → published.latest_update_seq + 1 < magic_key
      → has (published.latest_update_seq + 1) received.cache ≡ false
      → (let seq = published.latest_update_seq + 1 in
          let given : EntryDetails = record {
            msg = [];
            sync_emission_time = p.timer.time +ℤ p.timer.sync_offset;
          } in
          (p' r' : Rappel Queue) × (publish_update size p true ≡ ok p')
          × (passed : Passed p p.node_id published seq given p') × (receive_feed_update size r
                p.node_id seq passed.details.msg passed.details.sync_emission_time
              ≡ ok r')
          × (arrived : Passed r p.node_id received seq passed.details r') × (passed.details ≡ given)
          × (arrived.details ≡ given))
  publish_update-receive_feed_update p r published received at_p v_p at_r v_r some_size small
        absent =
      let (p', e, passed) = publish_update_lem p published at_p v_p some_size small in
      let (r', e', arrived) =
        receive_feed_update_lem r p.node_id received (published.latest_update_seq + 1)
          passed.details.msg passed.details.sync_emission_time at_r v_r some_size small in
      let first = passed.new v_p.frontier in
      (p', r', e, passed, e', arrived, first, arrived.new absent ∙ first)
