-- ===== src/Agent/Effect.antt =====
-- What a handler does: it changes a state `S`, writes responses `R` to its stream in order, and
-- returns a value. `none` is a call that does not end within the fuel of its loops, an access out
-- of bounds, or a call of a library that does not return.
use mathlib.Core.List.{map-append, map-map}
use mathlib.Core.Path.{ap₂}
use esnet_smartnic_fw.Base.{◌≡◌, ap, ◌∙◌, List, [], ◌∷◌, ◌++◌, map, Option, none, some}

abbrev pub M : Type 0 → Type 0 → Type 0 → Type 0
M S R A = S → Option (S × List R × A)

-- What comes before is kept in front of what comes after.
abbrev pub prepend : {S R A : Type 0} → List R → Option (S × List R × A) → Option (S × List R × A)
prepend rs none = none
prepend rs (some (s, rs', a)) = some (s, rs ++ rs', a)

abbrev pub continue :
    {S R A B : Type 0} → Option (S × List R × A) → (A → M S R B) → Option (S × List R × B)
continue none f = none
continue (some (s, rs, a)) f = prepend rs (f a s)

infixl 5 ◌>>=◌ ◌>>◌
abbrev pub ◌>>=◌ : {S R A B : Type 0} → M S R A → (A → M S R B) → M S R B
◌>>=◌ m f s = continue (m s) f

abbrev pub ◌>>◌ : {S R B : Type 0} → M S R (Unit {0}) → M S R B → M S R B
m >> k = m >>= λ _. k

abbrev pub pure : {S R A : Type 0} → A → M S R A
pure a s = some (s, [], a)

abbrev pub write : {S R : Type 0} → R → M S R (Unit {0})
write r s = some (s, r ∷ [], tt)

abbrev pub fault : {S R A : Type 0} → M S R A
fault s = none

-- A call that changes the state and returns a value, and one that only reads.
abbrev pub call : {S R A : Type 0} → (S → A × S) → M S R A
call f s = let (a, s') = f s in some (s', [], a)

abbrev pub change : {S R : Type 0} → (S → S) → M S R (Unit {0})
change f s = some (f s, [], tt)

abbrev pub read : {S R A : Type 0} → (S → A) → M S R A
read f s = some (s, [], f s)

-- The same run with each response passed through `f`.
abbrev pub map_run :
    {S Q R A : Type 0} → (Q → R) → Option (S × List Q × A) → Option (S × List R × A)
map_run f none = none
map_run f (some (s, rs, a)) = some (s, map f rs, a)

abbrev pub through : {S Q R A : Type 0} → (Q → R) → M S Q A → M S R A
through f m s = map_run f (m s)

-- Total correctness: the run ends without a fault, and what it answers and writes satisfies `P`.
abbrev pub Answers : {S R A : Type 0} → M S R A → (A → List R → Type 0) → Type 0
Answers {S} {R} {A} m P =
    (s : S) → (s' : S) × (rs : List R) × (a : A) × (m s ≡ some (s', rs, a)) × P a rs

-- The rule for a sequence.
pub Answers->>= :
    {S R A B : Type 0} (m : M S R A) (k : A → M S R B) (P : A → List R → Type 0)
    (Q : B → List R → Type 0)
    → Answers m P
    → ((a : A) (rs : List R) → P a rs → Answers (k a) (λ b rs'. Q b (rs ++ rs')))
    → Answers (m >>= k) Q
Answers->>= m k P Q first next s =
    let (s', rs, a, run, p) = first s in
    let (s'', rs', b, run', q) = next a rs p s' in
    (s'', rs ++ rs', b, ap (λ o. continue o k) run ∙ ap (prepend rs) run', q)

-- What a run writes, seen through `f`, is the list `l`.
abbrev pub Writes : {S R C : Type 0} → (R → C) → M S R (Unit {0}) → List C → Type 0
Writes f m l = Answers m (λ a rs. map f rs ≡ l)

pub Writes->> :
    {S R C : Type 0} (f : R → C) (m k : M S R (Unit {0})) (l l' : List C)
    → Writes f m l
    → Writes f k l'
    → Writes f (m >> k) (l ++ l')
Writes->> f m k l l' first next =
    Answers->>= m (λ a. k) (λ a rs. map f rs ≡ l) (λ b rs. map f rs ≡ l ++ l') first
      λ a rs e s.
        let (s', rs', b, run, e') = next s in
        (s', rs', b, run, map-append f rs rs' ∙ ap₂ (λ x y. x ++ y) e e')

pub Writes-read :
    {S R C A : Type 0} (f : R → C) (g : S → A) (k : A → M S R (Unit {0})) (l : List C)
    → ((a : A) → Writes f (k a) l)
    → Writes f (read g >>= k) l
Writes-read f g k l h s = let (s', rs, u, run, e) = h (g s) s in (s', rs, u, ap (prepend []) run, e)

-- Passing the responses through `g` changes what is written, and nothing else.
pub Writes-through :
    {S Q R C : Type 0} (f : R → C) (g : Q → R) (m : M S Q (Unit {0})) (l : List C)
    → Writes (λ q. f (g q)) m l
    → Writes f (through g m) l
Writes-through f g m l h s =
    let (s', rs, u, run, e) = h s in (s', map g rs, u, ap (map_run g) run, map-map f g rs ∙ e)
