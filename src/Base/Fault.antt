-- ===== src/Base/Fault.antt =====
-- Where the source ends the program: each failed `assert` that a model names, and the null
-- dereferences and accesses out of range that it would not survive.
use mathlib.Core.Path.{◌≡◌, refl}
use mathlib.Core.Bool.{Bool, true, false}
use mathlib.Core.Option.{Option, none, some}

pub data Abort : Type 0 where
  -- the timer
  time_goes_back wrong_time past_termination id_in_use : Abort
  not_registered not_initialized whence_out_of_range unknown_event bad_data : Abort
  already_registered : Abort
  -- peers, roles and candidates
  no_role unknown_role known_role unknown_peer bad_role : Abort
  bad_candidates time_of_vote unknown_friend unknown_feed : Abort
  -- feeds
  no_node no_event is_scheduled bad_ancestors entry_missing entry_present : Abort
  too_many_children is_a_child not_a_child below_latest above_highest : Abort
  not_pulled : Abort
  -- the rest
  interval_too_short out_of_range bad_base unreachable : Abort
  -- coordinates, nodes and the transport
  bad_latency no_version bad_sum out_of_draws : Abort
  unknown_landmark no_sample no_vivaldi has_vivaldi no_rappel has_rappel : Abort
  not_bootstrapped bootstrapped online offline bad_layer unknown_event_flag : Abort
  to_itself no_delay not_a_publisher : Abort
  not_online is_pending not_pending not_auditing protected_left not_protected : Abort
  unknown_filter too_many_friends too_many_fans wrong_mode wrong_size no_target too_often : Abort
  is_the_parent still_friend : Abort
  too_few_candidates too_many_candidates : Abort

pub data Result {ℓ} (A : Type ℓ) : Type ℓ where
  ok : A → Result A
  failed : Abort → Result A

infixl 5 ◌>>=◌ ◌>>◌
abbrev pub ◌>>=◌ {ℓ κ} : {A : Type ℓ} {B : Type κ} → Result A → (A → Result B) → Result B
ok a >>= f = f a
failed e >>= f = failed e

abbrev pub ◌>>◌ {ℓ} : {B : Type ℓ} → Result (Unit {0}) → Result B → Result B
m >> k = m >>= λ _. k

abbrev pub assert : Bool → Abort → Result (Unit {0})
assert true e = ok tt
assert false e = failed e

abbrev pub present {ℓ} : {A : Type ℓ} → Option A → Abort → Result A
present none e = failed e
present (some a) e = ok a

-- A property of what follows an `assert`, on both of its branches.
pub assert_cases {ℓ κ} :
    {A : Type ℓ} (P : Result A → Type κ) (b : Bool) (e : Abort) (m : Result A)
    → P (failed e)
    → (b ≡ true → P m)
    → P (assert b e >> m)
assert_cases P true e m bad good = good refl
assert_cases P false e m bad good = bad

pub present_cases {ℓ μ κ} :
    {A : Type ℓ} {B : Type μ} (P : Result B → Type κ) (o : Option A) (e : Abort) (f : A → Result B)
    → P (failed e)
    → ((a : A) → o ≡ some a → P (f a))
    → P (present o e >>= f)
present_cases P none e f bad good = bad
present_cases P (some a) e f bad good = good a refl

pub bind_cases {ℓ μ κ} :
    {A : Type ℓ} {B : Type μ} (P : Result B → Type κ) (m : Result A) (f : A → Result B)
    → ((e : Abort) → m ≡ failed e → P (failed e))
    → ((a : A) → m ≡ ok a → P (f a))
    → P (m >>= f)
bind_cases P (failed e) f bad good = bad e refl
bind_cases P (ok a) f bad good = good a refl

-- What the first step of a chain that returns has given, and that the next went on from there.
abbrev pub Stages {ℓ κ} : {A : Type ℓ} {B : Type κ} → Result A → (A → Result B) → B → Type (ℓ ⊔ κ)
Stages {A = A} step next last = (given : A) × (step ≡ ok given) × (next given ≡ ok last)

pub stages {ℓ κ} :
    {A : Type ℓ} {B : Type κ} (step : Result A) (next : A → Result B) {last : B}
    → (step >>= next) ≡ ok last
    → Stages step next last
stages step next {last} =
    bind_cases (λ r. r ≡ ok last → Stages step next last) step next (λ e stopped came. cc)
      (λ given went came. (given, went, came))

pub present-eq-ok {ℓ} :
    {A : Type ℓ} (o : Option A) (e : Abort) {a : A} → present o e ≡ ok a → o ≡ some a
present-eq-ok none e h = cc
present-eq-ok (some a) e h = cc

pub assert-eq-ok : (b : Bool) (e : Abort) {u : Unit {0}} → assert b e ≡ ok u → b ≡ true
assert-eq-ok true e h = refl
assert-eq-ok false e h = cc
