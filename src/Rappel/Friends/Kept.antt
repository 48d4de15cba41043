-- ===== src/Rappel/Friends/Kept.antt =====
-- src/rappel.cpp: what the handlers leave as it is when they add candidates or tell of them.
use rappel.Base.{ℕ, ◌≡◌, ap, ◌∙◌, List, [], ◌∷◌, arith, ok, stages}
use rappel.Messages.{Coordinate}
use rappel.Rappel.{Rappel, Options, add_candidate, add_candidates, get_candidate_list}

-- Nothing but the candidates and the count of the draws may change.
abbrev pub Kept : {Queue : Type 0} → Rappel Queue → Rappel Queue → Type 0
Kept r r' = r' ≡ record r { candidates = r'.candidates; draws = r'.draws }

pub add_candidate-Kept :
    {Queue : Type 0} (o : Options) (r : Rappel Queue) (id : ℕ) (nc : Coordinate) (r' : Rappel Queue)
    → add_candidate o r id nc ≡ ok r'
    → Kept r r'
unfolding add_candidate
add_candidate-Kept o r id nc r' e = ground (arith, e)

pub Kept-trans : {Queue : Type 0} (r s t : Rappel Queue) → Kept r s → Kept s t → Kept r t
Kept-trans {Queue = Queue} r s t h k =
    k ∙ ap (λ (x : Rappel Queue). record x { candidates = t.candidates; draws = t.draws }) h

pub add_candidates-Kept :
    {Queue : Type 0} (o : Options) (dummy : Coordinate) (r : Rappel Queue) (ids : List ℕ)
    (r' : Rappel Queue)
    → add_candidates o dummy r ids ≡ ok r'
    → Kept r r'
unfolding add_candidates
add_candidates-Kept o dummy r [] r' e = ground (arith, e)
add_candidates-Kept o dummy r (id ∷ ids) r' e =
    let (r₁, e₁, e₂) = stages (add_candidate o r id dummy) _ e in
    Kept-trans r r₁ r' (add_candidate-Kept o r id dummy r₁ e₁)
      (add_candidates-Kept o dummy r₁ ids r' e₂)

pub get_candidate_list-Kept :
    {Queue : Type 0} (rand : ℕ → ℕ → ℕ → ℕ) (r : Rappel Queue) (c : List ℕ × Rappel Queue)
    → get_candidate_list rand r ≡ ok c
    → Kept r (c.1)
unfolding get_candidate_list
get_candidate_list-Kept rand r c e = ground (arith, e)
