-- ===== src/Tasks.antt =====
-- Requests and checks that run at the same time. Each goroutine is the sequence of its statements, and a
-- schedule says which goroutine makes the next one; between two statements any other may go on.
use hivepulse.Prelude.{ℕ, zero, suc, ◌≡◌, refl, ap, ◌∙◌, List, [], ◌∷◌, ◌++◌, All}
use hivepulse.Domain.{Time}
use hivepulse.World.{World, State}

-- What is left to do on a shared state: nothing, with the result, or one statement and what comes after its
-- answer.
pub data Run (S A : Type 0) : Type 1 where
  done : A → Run S A
  call : {B : Type 0} → (S → B × S) → (B → Run S A) → Run S A

-- A goroutine that makes statements of the database.
abbrev pub Task : Type 0 → Type 1
Task A = Run World A

-- `time.Now()`
abbrev pub clock : State Time
clock w = (w.now, w)

module _ {S A : Type 0} where
  -- A goroutine that runs alone.
  unfoldable pub run : Run S A → S → A × S
  run (done a) w = (a, w)
  run (call m next) w = let (b, w1) = m w in run (next b) w1

  -- The goroutine with a number makes its next statement, if there is one.
  unfoldable pub move : ℕ → List (Run S A) → S → List (Run S A) × S
  move i [] w = ([], w)
  move zero (done a ∷ ts) w = (done a ∷ ts, w)
  move zero (call m next ∷ ts) w = let (b, w1) = m w in (next b ∷ ts, w1)
  move (suc i) (t ∷ ts) w = let (us, w1) = move i ts w in (t ∷ us, w1)

  -- A schedule lists the goroutines in the order in which they move.
  unfoldable pub weave : List ℕ → List (Run S A) → S → List (Run S A) × S
  unfolding move
  weave [] ts w = (ts, w)
  weave (i ∷ is) ts w = let (us, w1) = move i ts w in weave is us w1

  module _ (I : S → Type 0) where
    -- Each statement keeps `I`, whatever the answers of the ones before it are.
    abbrev pub Keeps : Run S A → Type 0
    Keeps (done a) = Unit
    Keeps (call {B} m next) = ((w : S) → I w → I (m w).1) × ((b : B) → Keeps (next b))

    move-Keeps :
        (i : ℕ) (ts : List (Run S A)) (w : S)
        → All Keeps ts
        → I w
        → All Keeps (move i ts w).0 × I (move i ts w).1
    unfolding move
    move-Keeps i [] w ks h = (tt, h)
    move-Keeps zero (done a ∷ ts) w ks h = (ks, h)
    move-Keeps zero (call m next ∷ ts) w ((keeps, after), ks) h = ((after (m w).0, ks), keeps w h)
    move-Keeps (suc i) (t ∷ ts) w (k, ks) h =
        let (ks1, h1) = move-Keeps i ts w ks h in ((k, ks1), h1)

    -- Then every schedule keeps it.
    pub weave-Keeps :
        (is : List ℕ) (ts : List (Run S A)) (w : S) → All Keeps ts → I w → I (weave is ts w).1
    unfolding weave
    weave-Keeps [] ts w ks h = h
    weave-Keeps (i ∷ is) ts w ks h =
        let (ks1, h1) = move-Keeps i ts w ks h in
        weave-Keeps is (move i ts w).0 (move i ts w).1 ks1 h1

  -- What can come of goroutines and a world in some order of the statements.
  abbrev pub Leads : List (Run S A) → S → List (Run S A) → S → Type 1
  Leads ts w us v = (is : List ℕ) × (weave is ts w ≡ (us, v))

  weave-append :
      (is js : List ℕ) (ts : List (Run S A)) (w : S)
      → weave (is ++ js) ts w ≡ weave js (weave is ts w).0 (weave is ts w).1
  unfolding weave
  weave-append [] js ts w = refl
  weave-append (i ∷ is) js ts w = weave-append is js (move i ts w).0 (move i ts w).1

  -- One order after another.
  pub Leads-trans :
      (ts : List (Run S A)) (w : S) {us vs : List (Run S A)} {u v : S}
      → Leads ts w us u
      → Leads us u vs v
      → Leads ts w vs v
  Leads-trans ts w (is, e) (js, f) =
      (is ++ js, weave-append is js ts w ∙ ap (λ p. weave js p.0 p.1) e ∙ f)

  first_goes :
      (t : Run S A) (ts : List (Run S A)) (w : S)
      → Leads (t ∷ ts) w (done (run t w).0 ∷ ts) (run t w).1
  unfolding weave run
  first_goes (done a) ts w = ([], refl)
  first_goes (call m next) ts w = let (is, e) = first_goes (next (m w).0) ts (m w).1 in (0 ∷ is, e)

  second_goes :
      (s t : Run S A) (ts : List (Run S A)) (w : S)
      → Leads (s ∷ t ∷ ts) w (s ∷ done (run t w).0 ∷ ts) (run t w).1
  unfolding weave run
  second_goes s (done a) ts w = ([], refl)
  second_goes s (call m next) ts w =
      let (is, e) = second_goes s (next (m w).0) ts (m w).1 in (1 ∷ is, e)

  -- The first goroutine, or the second, goes on alone to its end.
  pub first_ends :
      (t : Run S A) (ts : List (Run S A)) (w : S) {a : A} {v : S}
      → run t w ≡ (a, v)
      → Leads (t ∷ ts) w (done a ∷ ts) v
  first_ends t ts w ends =
      let (is, e) = first_goes t ts w in (is, e ∙ ap (λ p. (done p.0 ∷ ts, p.1)) ends)

  pub second_ends :
      (s t : Run S A) (ts : List (Run S A)) (w : S) {a : A} {v : S}
      → run t w ≡ (a, v)
      → Leads (s ∷ t ∷ ts) w (s ∷ done a ∷ ts) v
  second_ends s t ts w ends =
      let (is, e) = second_goes s t ts w in (is, e ∙ ap (λ p. (s ∷ done p.0 ∷ ts, p.1)) ends)

  -- Two goroutines make their first statements, and then go on to their ends one after the other.
  pub both_start :
      {B C : Type 0} (m : (S → B × S)) (f : B → Run S A) (n : (S → C × S)) (g : C → Run S A) (w : S)
      {b : B} {c : C} {w1 w2 v1 v2 : S} {x y : A}
      → m w ≡ (b, w1)
      → n w1 ≡ (c, w2)
      → run (f b) w2 ≡ (x, v1)
      → run (g c) v1 ≡ (y, v2)
      → Leads (call m f ∷ call n g ∷ []) w (done x ∷ done y ∷ []) v2
  unfolding weave
  both_start m f n g w {b} {c} {w1} {w2} {v1} {v2} {x} {y} first second ends_f ends_g =
      let starts : Leads (call m f ∷ call n g ∷ []) w (f b ∷ g c ∷ []) w2 = (
        0 ∷ 1 ∷ [],
        ap (λ p. let q = n p.1 in (f p.0 ∷ g q.0 ∷ [], q.1)) first
            ∙ ap (λ q. (f b ∷ g q.0 ∷ [], q.1)) second,
      ) in
      Leads-trans (call m f ∷ call n g ∷ []) w starts (
        Leads-trans (f b ∷ g c ∷ []) w2 (first_ends (f b) (g c ∷ []) w2 ends_f)
          (second_ends (done x) (g c) [] v1 ends_g))
