-- ===== src/Servlet/Chain.antt =====
-- In which order the filters and the servlet function run.
use highway.Prelude.{
  ◌≡◌, refl, sym, ◌∙◌, List, [], ◌∷◌, ◌++◌, map, Option, some, Outcome, ret, fault, hang, ◌>>=◌,
}
use highway.Servlet.{Exchange, Servlet, Filter, chain_next, dispatch}

module _ {C : Type 0} where
  -- A filter that does its work, and then hands on to the rest of the chain.
  abbrev pub before : Servlet C → Filter C
  before work next x = work x >>= next

  -- The works one after another, each on what the one before it leaves.
  unfoldable pub in_turn : List (Servlet C) → Servlet C
  in_turn [] x = ret x
  in_turn (work ∷ works) x = work x >>= in_turn works

  >>=-assoc :
      (m : Outcome (Exchange C)) (f g : Servlet C) → (m >>= f) >>= g ≡ (m >>= λ x. f x >>= g)
  >>=-assoc (ret x) f g = refl
  >>=-assoc fault f g = refl
  >>=-assoc hang f g = refl

  >>=-cong :
      (m : Outcome (Exchange C)) (f g : Servlet C)
      → ((x : Exchange C) → f x ≡ g x)
      → (m >>= f) ≡ (m >>= g)
  >>=-cong (ret x) f g h = h x
  >>=-cong fault f g h = refl
  >>=-cong hang f g h = refl

  chain_next-in_turn :
      (works : List (Servlet C)) (servlet : Servlet C) (x : Exchange C)
      → chain_next (map before works) (some servlet) x ≡ (in_turn works x >>= servlet)
  unfolding chain_next in_turn
  chain_next-in_turn [] servlet x = refl
  chain_next-in_turn (work ∷ works) servlet x =
      >>=-cong (work x) (chain_next (map before works) (some servlet))
        (λ y. in_turn works y >>= servlet) (chain_next-in_turn works servlet)
      ∙ sym (>>=-assoc (work x) (in_turn works) servlet)

  -- Filters that each do a work and hand on run in the order of the array, and the servlet function
  -- runs last, on what they leave.
  pub dispatch-in_turn :
      (work : Servlet C) (works : List (Servlet C)) (servlet : Servlet C) (x : Exchange C)
      → dispatch (some (map before (work ∷ works))) (some servlet) x
        ≡ (in_turn (work ∷ works) x >>= servlet)
  unfolding dispatch in_turn
  dispatch-in_turn work works servlet x = chain_next-in_turn (work ∷ works) servlet x

  chain_next-stops :
      (works : List (Servlet C)) (stop : Servlet C) (filters : List (Filter C))
      (servlet : Option (Servlet C)) (x : Exchange C)
      → chain_next (map before works ++ (λ next. stop) ∷ filters) servlet x
        ≡ (in_turn works x >>= stop)
  unfolding chain_next in_turn
  chain_next-stops [] stop filters servlet x = refl
  chain_next-stops (work ∷ works) stop filters servlet x =
      >>=-cong (work x) (chain_next (map before works ++ (λ next. stop) ∷ filters) servlet)
        (λ y. in_turn works y >>= stop) (chain_next-stops works stop filters servlet)
      ∙ sym (>>=-assoc (work x) (in_turn works) stop)

  -- A filter that does not hand on is the last to run: neither the filters behind it nor the servlet
  -- function have any part in the answer.
  pub dispatch-stops :
      (work : Servlet C) (works : List (Servlet C)) (stop : Servlet C) (filters : List (Filter C))
      (servlet : Option (Servlet C)) (x : Exchange C)
      → dispatch (some (map before (work ∷ works) ++ (λ next. stop) ∷ filters)) servlet x
        ≡ (in_turn (work ∷ works) x >>= stop)
  unfolding dispatch in_turn
  dispatch-stops work works stop filters servlet x =
      chain_next-stops (work ∷ works) stop filters servlet x
