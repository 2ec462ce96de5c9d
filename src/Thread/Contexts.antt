-- ===== src/Thread/Contexts.antt =====
-- The contexts of a thread.
use highway.Prelude.{
  append-nil, ℕ, ◌≡◌, ◌≢◌, refl, sym, ap, ◌∙◌, List, [], ◌∷◌, ◌++◌, All, none, some, ==-ne, ==-self,
}
use highway.Thread.{Context, Thread, context_push, context_pop, find_traverse, context_find}

find_traverse-skips :
    (inner outer : List Context) (key : ℕ)
    → All (λ c. c.key ≢ key) inner
    → find_traverse (inner ++ outer) key ≡ find_traverse outer key
unfolding find_traverse
find_traverse-skips [] outer key h = refl
find_traverse-skips (c ∷ inner) outer key (h, hs) =
    rw (==-ne c.key key h) (find_traverse-skips inner outer key hs)

-- The value that is found for a key is that of the innermost context with the key.
pub context_find-innermost :
    (t : Thread) (inner outer : List Context) (c : Context)
    → t.context ≡ inner ++ c ∷ outer
    → All (λ d. d.key ≢ c.key) inner
    → context_find t c.key ≡ some c.value
unfolding context_find find_traverse
context_find-innermost t inner outer c e h =
    ap (λ cs. find_traverse cs c.key) e
    ∙ find_traverse-skips inner (c ∷ outer) c.key h
    ∙ rw (==-self c.key) refl

-- With a key that no context has, NULL is found.
pub context_find-none :
    (t : Thread) (key : ℕ) → All (λ d. d.key ≢ key) t.context → context_find t key ≡ none
unfolding context_find find_traverse
context_find-none t key h =
    ap (λ cs. find_traverse cs key) (sym (append-nil t.context))
    ∙ find_traverse-skips t.context [] key h

-- The context that is pushed is popped, and the thread is then as it was.
pub context_pop-push : (t : Thread) (c : Context) → context_pop (context_push t c).1 ≡ (some c, t)
unfolding context_pop context_push
context_pop-push t c = refl
