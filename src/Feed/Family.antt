-- ===== src/Feed/Family.antt =====
-- src/feed.cpp, include/feed.h: the children and the ancestors of a node in the tree of a feed.
use rappel.Base.{
  contains-get_elem?, ℕ, ◌+◌, ◌-◌, ◌≤◌, ◌<◌, ◌≡◌, ◌≢◌, refl, true, false, ◌||◌, List, [], ◌∷◌, ◌++◌,
  some, arith, ◌==◌, ok, length, contains, erase_first, get_elem?, Distinct, contains-append,
  Distinct-append, Distinct-erase_first, length-erase_first, length-append, erase_first-append,
  get_elem?_below, lt→ltb, le→leb,
}
use rappel.Feed.{Feed}
use rappel.Feed.Tree.{
  add_child, remove_child, is_child, set_ancestors, get_grand_parent, get_random_ancestor, expect,
  get_parent, has_parent,
}

-- The calls that change the children, one after the other.
pub data Grown (max_children : ℕ) (f : Feed) : Feed → Type 0 where
  start : Grown max_children f f
  added :
      (g h : Feed) (child : ℕ)
      → Grown max_children f g
      → add_child max_children g child ≡ ok h
      → Grown max_children f h
  removed :
      (g h : Feed) (child : ℕ)
      → Grown max_children f g
      → remove_child g child ≡ ok h
      → Grown max_children f h

-- What a call of `add_child` that returns has tested, and what it gives.
add_child_lem :
    (max_children : ℕ) (f h : Feed) (child : ℕ)
    → add_child max_children f child ≡ ok h
    → (length f.children ≤ max_children)
      × (is_child f child ≡ false)
      × (h ≡ record f { children = f.children ++ child ∷ [] })
unfolding add_child
add_child_lem max_children f h child e = ground arith

remove_child_lem :
    (f h : Feed) (child : ℕ)
    → remove_child f child ≡ ok h
    → (is_child f child ≡ true) × (h ≡ record f { children = erase_first f.children child })
unfolding remove_child
remove_child_lem f h child e = ground arith

-- Whatever calls of `add_child` and `remove_child` return, started with no more children than the
-- limit and one, no child is listed twice and there are never more than the limit and one.
pub Grown-Distinct :
    (max_children : ℕ) (f g : Feed)
    → Distinct f.children
    → length f.children ≤ max_children + 1
    → Grown max_children f g
    → Distinct g.children × (length g.children ≤ max_children + 1)
Grown-Distinct max_children f _ d n start = (d, n)
Grown-Distinct max_children f _ d n (added g h child s e) =
    let (d', n') = Grown-Distinct max_children f g d n s in
    let (room, new, is) = add_child_lem max_children g h child e in
    rw is (
      Distinct-append g.children child d' new,
      omega (arith, length-append g.children (child ∷ [])),
    )
Grown-Distinct max_children f _ d n (removed g h child s e) =
    let (d', n') = Grown-Distinct max_children f g d n s in
    let (there, is) = remove_child_lem g h child e in
    rw is (
      Distinct-erase_first g.children child d',
      omega (arith, length-erase_first g.children child there),
    )

-- `add_child` below the limit, for a node that is no child yet: it becomes one and no other node
-- does, adding it again fails the assertion, and `remove_child` gives the feed back as it was.
pub add_child-remove_child :
    (max_children : ℕ) (f : Feed) (child : ℕ)
    → length f.children ≤ max_children
    → is_child f child ≡ false
    → (f' : Feed) × (add_child max_children f child ≡ ok f')
      × ((k : ℕ) → is_child f' k ≡ (is_child f k || child == k))
      × ((h : Feed) → add_child max_children f' child ≢ ok h)
      × (remove_child f' child ≡ ok f)
unfolding add_child remove_child
add_child-remove_child max_children f child room new =
    let f' : Feed = record f { children = f.children ++ child ∷ [] } in
    let there : is_child f' child ≡ true = ground (arith, contains-append f.children child child) in
    (
      f',
      rw (le→leb (length f.children) max_children room, new),
      (λ k. contains-append f.children child k),
      (λ h e. let l = add_child_lem max_children f' h child e in cc),
      rw (there, erase_first-append f.children child new),
    )

-- The tests that `set_ancestors` has made when it returns.
set_ancestors_tests :
    (f f' : Feed) (nodes : List ℕ)
    → set_ancestors f nodes ≡ ok f'
    → (0 < length nodes)
      × (expect nodes 0 f.id ≡ ok tt)
      × (has_parent f ≡ true)
      × (expect nodes (length nodes - 1) f.parent ≡ ok tt)
      × (contains nodes f.owner ≡ false)
      × (f' ≡ record f { ancestors = nodes })
unfolding set_ancestors get_parent
set_ancestors_tests f f' nodes e = ground arith

-- Once `set_ancestors` has accepted a path of two nodes or more, neither `get_grand_parent` nor
-- `get_random_ancestor` fails an assertion, whatever number up to the last but one is drawn. The
-- first gives the last node but one of the path, and the second a node of the path other than
-- the node itself.
pub set_ancestors_lem :
    (f f' : Feed) (nodes : List ℕ) (drawn : ℕ)
    → set_ancestors f nodes ≡ ok f'
    → 1 < length nodes
    → drawn ≤ length nodes - 2
    → (grand : ℕ) × (ancestor : ℕ) × (get_grand_parent f' ≡ ok grand)
      × (get_elem? nodes (length nodes - 2) ≡ some grand)
      × (get_random_ancestor f' drawn ≡ ok ancestor)
      × (contains nodes ancestor ≡ true)
      × (ancestor ≢ f.owner)
unfolding get_grand_parent get_random_ancestor get_parent
set_ancestors_lem f f' nodes drawn e two range =
    let (some_node, first, parent, last, own, is) = set_ancestors_tests f f' nodes e in
    let (grand, g) = get_elem?_below nodes (length nodes - 2) (omega arith) in
    let (ancestor, a) = get_elem?_below nodes drawn (omega arith) in
    let here = contains-get_elem? nodes drawn ancestor a in
    (
      grand,
      ancestor,
      rw is (rw (lt→ltb 1 (length nodes) two, first, parent, last, g) refl),
      g,
      rw is (
          rw
            (
              lt→ltb 1 (length nodes) two,
              first,
              parent,
              last,
              le→leb drawn (length nodes - 2) range,
              a,
            )
            refl),
      here,
      λ same. ground arith,
    )
