-- ===== src/Audit/Pages.antt =====
-- The pages of `VerifyDeep` and `VerifyIncremental` (backend/internal/audit/ops.go): reading the
-- table page by page visits the rows that one unbounded query would return, in its order.
use vaultscan.Prelude.{
  take-drop, ℕ, zero, suc, ◌+◌, ◌≤◌, ◌<◌, ◌≡◌, refl, ◌∙◌, sym, ap, some, List, [], ◌∷◌, ◌++◌,
  length, take, drop, arith, length-take, length-drop, dec_lt,
}
use vaultscan.Audit.{Row}
use vaultscan.Audit.Verify.{Scan, visit_all, after, scan_pages}

-- The ids grow, and all are above `low`.
abbrev pub IsAscending : ℕ → List Row → Type 0
IsAscending low [] = Unit
IsAscending low (r ∷ rs) = (low < r.id) × IsAscending r.id rs

pub IsAscending-weaken : (a b : ℕ) (rs : List Row) → a ≤ b → IsAscending b rs → IsAscending a rs
IsAscending-weaken a b [] h asc = tt
IsAscending-weaken a b (r ∷ rs) h asc = (omega arith, asc.1)

pub IsAscending-drop :
    (n low : ℕ) (rs : List Row) → IsAscending low rs → IsAscending low (drop n rs)
IsAscending-drop zero low rs asc = asc
IsAscending-drop (suc n) low [] asc = tt
IsAscending-drop (suc n) low (r ∷ rs) asc =
    IsAscending-drop n low rs (IsAscending-weaken low r.id rs (omega arith) asc.1)

pub after-all : (low : ℕ) (rs : List Row) → IsAscending low rs → after low rs ≡ rs
unfolding after
after-all low [] asc = refl
after-all low (r ∷ rs) asc =
    ground (arith, after-all low rs (IsAscending-weaken low r.id rs (omega arith) asc.1))

length-after : (low : ℕ) (rs : List Row) → length (after low rs) ≤ length rs
unfolding after
length-after low [] = omega arith
length-after low (r ∷ rs) = ground (arith, length-after low rs)

after-after : (a b : ℕ) (rs : List Row) → a ≤ b → after b (after a rs) ≡ after b rs
unfolding after
after-after a b [] h = refl
after-after a b (r ∷ rs) h = ground (arith, after-after a b rs h)

pub visit_all-append :
    (step : Scan → Row → Scan) (s : Scan) (xs ys : List Row)
    → visit_all step s (xs ++ ys) ≡ visit_all step (visit_all step s xs) ys
unfolding visit_all
visit_all-append step s [] ys = refl
visit_all-append step s (x ∷ xs) ys = visit_all-append step (step s x) xs ys

take_all : (n : ℕ) (rs : List Row) → length rs ≤ n → take n rs ≡ rs
take_all zero [] h = refl
take_all zero (r ∷ rs) h = absurd (omega arith)
take_all (suc n) [] h = refl
take_all (suc n) (r ∷ rs) h = ap (λ l. r ∷ l) (take_all n rs (omega arith))

module _ (step : Scan → Row → Scan) (marks : (s : Scan) (r : Row) → (step s r).last_id ≡ r.id) where
  last_id_grows :
      (n : ℕ) (s : Scan) (rs : List Row)
      → IsAscending s.last_id rs
      → s.last_id ≤ (visit_all step s (take n rs)).last_id
  unfolding visit_all
  last_id_grows zero s rs asc = omega arith
  last_id_grows (suc n) s [] asc = omega arith
  last_id_grows (suc n) s (r ∷ rs) asc =
      let e = marks s r in omega (arith, last_id_grows n (step s r) rs (rw e asc.1))

  -- What stands after the last row of a page is what the page left.
  after_page :
      (n : ℕ) (s : Scan) (rs : List Row)
      → IsAscending s.last_id rs
      → after (visit_all step s (take n rs)).last_id rs ≡ drop n rs
  unfolding visit_all after
  after_page zero s rs asc = after-all s.last_id rs asc
  after_page (suc n) s [] asc = refl
  after_page (suc n) s (r ∷ rs) asc =
      let e = marks s r in
      let low = last_id_grows n (step s r) rs (rw e asc.1) in
      let ih = after_page n (step s r) rs (rw e asc.1) in ground (arith, ih, low, e)

  IsAscending-page :
      (n : ℕ) (s : Scan) (rs : List Row)
      → IsAscending s.last_id rs
      → IsAscending (visit_all step s (take n rs)).last_id (drop n rs)
  unfolding visit_all
  IsAscending-page zero s rs asc = asc
  IsAscending-page (suc n) s [] asc = tt
  IsAscending-page (suc n) s (r ∷ rs) asc = IsAscending-page n (step s r) rs (rw (marks s r) asc.1)

  pages_from :
      (fuel size : ℕ) (rows : List Row) (s : Scan)
      → 0 < size
      → IsAscending s.last_id (after s.last_id rows)
      → length (after s.last_id rows) < fuel
      → scan_pages fuel size step rows s ≡ some (visit_all step s (after s.last_id rows))
  unfolding scan_pages
  pages_from zero size rows s pos asc enough = absurd (omega arith)
  pages_from (suc fuel) size rows s pos asc enough =
      let rest = after s.last_id rows in
      let s' = visit_all step s (take size rest) in
      let left : after s'.last_id rows ≡ drop size rest =
        sym (after-after s.last_id s'.last_id rows (last_id_grows size s rest asc))
        ∙ after_page size s rest asc in
      elim (dec_lt (length rest) size) [
        | yes short ↦ rw (take_all size rest (omega arith)) (ground arith)
        | no full ↦
            let ih =
              pages_from fuel size rows s' pos (rw left (IsAscending-page size s rest asc))
                (rw left (omega (arith, length-drop size rest))) in
            let joined =
              sym (visit_all-append step s (take size rest) (drop size rest))
              ∙ ap (visit_all step s) (take-drop size rest) in
            ground
              (arith, length-take size rest, ih ∙ ap some (ap (visit_all step s') left ∙ joined))
      ]

  -- Reading the table page by page, at any page size, visits the rows behind `s.last_id` once each
  -- in the order of their ids, and one page more than there are rows is fuel enough.
  pub scan_pages-eq-visit_all :
      (size : ℕ) (rows : List Row) (s : Scan)
      → 0 < size
      → IsAscending s.last_id (after s.last_id rows)
      → scan_pages (length rows + 1) size step rows s
        ≡ some (visit_all step s (after s.last_id rows))
  scan_pages-eq-visit_all size rows s pos asc =
      pages_from (length rows + 1) size rows s pos asc (omega (arith, length-after s.last_id rows))
