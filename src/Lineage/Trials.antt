-- ===== src/Lineage/Trials.antt =====
-- The registry of trials: signald/lineage.py, `TrialRegistry`. The file is the list of its rows; a row that
-- cannot be parsed raises.
use trading_execution.Prelude.{
  ℕ, suc, ◌+◌, ◌≡◌, refl, ap, subst, Option, none, some, List, [], ◌∷◌, ◌++◌, String, arith,
  if◌then◌else◌, length, length-append,
}
use trading_execution.Prelude.Float.{Float, is_finite}
use trading_execution.Prelude.Results.{Result, ok, err, ◌>>=◌, >>=-eq-ok}

-- `Trial`, with its number in place of the id that is made of it
pub record Trial : Type 0 where
  pub number : ℕ
  pub variant : String
  pub started_at : String
  pub notes : String
  pub metric : List (String × Float)

-- `_clean_metric`: a value that is no finite number raises ValueError
unfoldable pub clean_metric : List (String × Option Float) → Result String (List (String × Float))
clean_metric [] = ok []
clean_metric ((k, none) ∷ m) = err "trial metric is not a finite number"
clean_metric ((k, some x) ∷ m) =
    if is_finite x
    then (clean_metric m >>= λ rest. ok ((k, x) ∷ rest))
    else err "trial metric is not a finite number"

-- `_rows`
unfoldable pub rows : List (Option Trial) → Result String (List Trial)
rows [] = ok []
rows (none ∷ lines) = err "trial registry row is not valid JSON"
rows (some t ∷ lines) = rows lines >>= λ rest. ok (t ∷ rest)

-- `count`
unfoldable pub count : List (Option Trial) → Result String ℕ
unfolding rows
count lines = rows lines >>= λ ts. ok (length ts)

-- `register`
unfoldable pub register :
    List (Option Trial)
    → String
    → String
    → List (String × Option Float)
    → String
    → Result String (Trial × List (Option Trial))
unfolding count clean_metric
register lines variant notes metric now = count lines >>= λ n. clean_metric metric >>= λ m.
    let trial : Trial = record {
      number = suc n;
      variant = variant;
      started_at = now;
      notes = notes;
      metric = m;
    } in
    ok (trial, lines ++ (some trial ∷ []))

-- The trials are numbered from a first number on.
abbrev pub IsNumbered : ℕ → List Trial → Type 0
IsNumbered n [] = Unit
IsNumbered n (t ∷ ts) = (t.number ≡ n) × IsNumbered (suc n) ts

rows-append :
    (lines : List (Option Trial)) (t : Trial) (ts : List Trial)
    → rows lines ≡ ok ts
    → rows (lines ++ (some t ∷ [])) ≡ ok (ts ++ (t ∷ []))
unfolding rows
rows-append [] t ts h =
    let same : [] ≡ ts = cc h in
    subst (λ x. ◌≡◌ {A = Result String (List Trial)} (ok (t ∷ [])) (ok (x ++ (t ∷ [])))) same refl
rows-append (none ∷ lines) t ts h = cc
rows-append (some u ∷ lines) t ts h =
    let (rest, a, h1) = >>=-eq-ok (rows lines) _ h in
    let same : u ∷ rest ≡ ts = cc h1 in
    subst (λ x. rows (some u ∷ lines ++ (some t ∷ [])) ≡ ok (x ++ (t ∷ []))) same
      (rw (rows-append lines t rest a) refl)

IsNumbered-snoc :
    (n : ℕ) (ts : List Trial) (t : Trial)
    → IsNumbered n ts
    → t.number ≡ length ts + n
    → IsNumbered n (ts ++ (t ∷ []))
IsNumbered-snoc n [] t h e = (omega arith, tt)
IsNumbered-snoc n (u ∷ ts) t h e = (h.0, IsNumbered-snoc (suc n) ts t h.1 (omega arith))

-- A registration adds one row behind the others, whose number is the count of trials with it: a registry
-- whose rows are numbered from one stays so, and none is counted twice or lost.
pub register-IsNumbered :
    (lines : List (Option Trial)) (ts : List Trial) (variant notes : String)
    (metric : List (String × Option Float)) (now : String) (t : Trial) (more : List (Option Trial))
    → rows lines ≡ ok ts
    → IsNumbered 1 ts
    → register lines variant notes metric now ≡ ok (t, more)
    → (rows more ≡ ok (ts ++ (t ∷ []))) × IsNumbered 1 (ts ++ (t ∷ [])) × (count more ≡ ok t.number)
unfolding register count
register-IsNumbered lines ts variant notes metric now t more r h e =
    let (n, a, e1) = >>=-eq-ok (count lines) _ e in
    let (m, b, e2) = >>=-eq-ok (clean_metric metric) _ e1 in
    let counted : ◌≡◌ {A = Result String ℕ} (ok (length ts)) (ok n) = rw (r, count) at a in
    let size : length ts ≡ n = cc counted in
    let trial : Trial = record {
      number = suc n;
      variant = variant;
      started_at = now;
      notes = notes;
      metric = m;
    } in
    let same : ◌≡◌ {A = Trial × List (Option Trial)} (trial, lines ++ (some trial ∷ [])) (t, more) =
      cc e2 in
    let added = rows-append lines trial ts r in
    subst
      (λ (x : Trial × List (Option Trial)).
        (rows x.1 ≡ ok (ts ++ (x.0 ∷ [])))
        × IsNumbered 1 (ts ++ (x.0 ∷ []))
        × (count x.1 ≡ ok x.0.number))
      same
      (
        added,
        IsNumbered-snoc 1 ts trial h (omega arith),
        rw (added, count) (ap ok (omega (arith, length-append ts (trial ∷ []), size))),
      )
