-- ===== src/Rappel/Peers/Known.antt =====
-- src/rappel.cpp: the friends of a node are the peers that play the role of a friend, in
-- `add_peer_with_role` and `remove_peer_from_role`.
use rappel.Base.{
  ℕ, ◌≡◌, refl, ◌∙◌, sym, inl, inr, Bool, true, false, ◌||◌, List, some, none, arith, ◌==◌,
  if◌then◌else◌, Bool-cases, ok, contains, Distinct,
}
use rappel.Base.Map.{Map, lookup, insert, erase, lookup-insert, lookup-erase}
use rappel.Neighbor.{Neighbor, Role, friend_role, finds, set_bloom_filter, set_nc}
use rappel.Neighbor.Roles.{Inv, plays_role_lem}
use rappel.Messages.{Coordinate}
use rappel.Bloom.{BloomFilter}
use rappel.Candidates.{peer_plays_role}

abbrev pub is_friend : Map Neighbor → ℕ → Bool
is_friend peers id = elim (lookup id peers) [ none ↦ false | some n ↦ finds friend_role n.roles ]

-- The friends are the peers in that role, each once, and every peer is sound.
pub record Known (peers : Map Neighbor) (friends : List ℕ) : Type 0 where
  pub sound : (id : ℕ) (n : Neighbor) → lookup id peers ≡ some n → Inv n
  pub agree : (id : ℕ) → contains friends id ≡ is_friend peers id
  pub once : Distinct friends

module _ {peers : Map Neighbor} {friends : List ℕ} (v : Known peers friends) where
  pub Known-insert :
      (id : ℕ) (n : Neighbor) (friends' : List ℕ)
      → Inv n
      → ((k : ℕ)
          → contains friends' k
            ≡ (if id == k then finds friend_role n.roles else contains friends k))
      → Distinct friends'
      → Known (insert id n peers) friends'
  Known-insert id n friends' inv same once = record {
    sound = λ k m e. elim (Bool-cases (id == k)) [
      | inl here ↦
          let is : some n ≡ some m = rw here at (sym (lookup-insert id k n peers) ∙ e) in
          let is' : n ≡ m = cc in rw (← is') inv
      | inr there ↦ v.sound k m (rw there at (sym (lookup-insert id k n peers) ∙ e))
    ];
    agree = λ k. elim (Bool-cases (id == k)) [
      | inl here ↦ same k ∙ rw (lookup-insert id k n peers, here, is_friend) refl
      | inr there ↦ same k ∙ rw (lookup-insert id k n peers, there, is_friend) (v.agree k)
    ];
    once = once;
  }

  pub Known-erase :
      (id : ℕ) (friends' : List ℕ)
      → ((k : ℕ) → contains friends' k ≡ (if id == k then false else contains friends k))
      → Distinct friends'
      → Known (erase id peers) friends'
  Known-erase id friends' same once = record {
    sound = λ k m e. elim (Bool-cases (id == k)) [
      | inl here ↦ let never : none ≡ some m = rw here at (sym (lookup-erase id k peers) ∙ e) in cc
      | inr there ↦ v.sound k m (rw there at (sym (lookup-erase id k peers) ∙ e))
    ];
    agree = λ k. elim (Bool-cases (id == k)) [
      | inl here ↦ same k ∙ rw (lookup-erase id k peers, here, is_friend) refl
      | inr there ↦ same k ∙ rw (lookup-erase id k peers, there, is_friend) (v.agree k)
    ];
    once = once;
  }

-- A peer with another filter and other coordinates.
abbrev pub renewed : Neighbor → BloomFilter → Coordinate → Neighbor
renewed n f nc = (set_nc (set_bloom_filter n f).1 nc).1

pub renewed_roles :
    (n : Neighbor) (f : BloomFilter) (nc : Coordinate) → (renewed n f nc).roles ≡ n.roles
unfolding set_nc set_bloom_filter
renewed_roles n f nc = ground arith

pub renewed-Inv : (n : Neighbor) (f : BloomFilter) (nc : Coordinate) → Inv n → Inv (renewed n f nc)
unfolding set_nc set_bloom_filter
renewed-Inv n f nc v = record {
  some_role = ground (arith, v.some_role);
  checked = ground (arith, v.checked);
  once = rw (renewed_roles n f nc) v.once;
}

-- `set_nc` always says that the coordinates have changed.
pub renewed_changed :
    (n : Neighbor) (f : BloomFilter) (nc : Coordinate)
    → ((set_bloom_filter n f).0 || (set_nc (set_bloom_filter n f).1 nc).0) ≡ true
unfolding set_nc set_bloom_filter
renewed_changed n f nc = ground arith

pub known_plays :
    (peers : Map Neighbor) (id : ℕ) (role : Role) {n : Neighbor}
    → lookup id peers ≡ some n
    → Inv n
    → peer_plays_role peers id role ≡ ok (finds role n.roles)
unfolding peer_plays_role
known_plays peers id role at inv = rw (peer_plays_role, at) (plays_role_lem inv role)

pub unknown_plays :
    (peers : Map Neighbor) (id : ℕ) (role : Role)
    → lookup id peers ≡ none
    → peer_plays_role peers id role ≡ ok false
unfolding peer_plays_role
unknown_plays peers id role at = rw (peer_plays_role, at) refl
