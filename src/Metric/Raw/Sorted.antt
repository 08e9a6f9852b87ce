-- ===== src/Metric/Raw/Sorted.antt =====
-- Samples in the order of their times, and the loop of append on them (pkg/metric/raw_points.go).
use mango_hub.Base.{
  ℕ, zero, suc, ◌+◌, ◌≤◌, ◌<◌, ◌≡◌, refl, subst, sym, Bool-cases, inl, inr, Option, none, some,
  List, [], ◌∷◌, arith, length, All, if◌then◌else◌,
}
use mango_hub.Base.Branch.{if_false, either_by}
use mango_hub.Base.Int.{ℤ, pos_part, neg_part, ltb_ℤ, eq_of_parts}
use mango_hub.Metric.Raw.{RawSample, CompressedRawSamples, append_sample, append_samples}
use mango_hub.Metric.Raw.Decode.{last_stamp_of}
use mango_hub.Metric.Raw.Window.{eqb_ℤ, Order, older, same, newer, order, merge_step, merge_loop}

infix 50 ◌<ℤ◌
abbrev pub ◌<ℤ◌ : ℤ → ℤ → Type 0
a <ℤ b = pos_part a + neg_part b < pos_part b + neg_part a

-- The samples after a time, and samples in the order of their times, each time once.
abbrev pub Above : ℤ → List RawSample → Type 0
Above t l = All (λ s. t <ℤ s.timestamp) l

abbrev pub IsRising : List RawSample → Type 0
IsRising [] = Unit
IsRising (s ∷ l) = Above s.timestamp l × IsRising l

-- The sample of a time.
unfoldable pub find : ℤ → List RawSample → Option RawSample
find t [] = none
find t (s ∷ l) = if eqb_ℤ t s.timestamp then some s else find t l

abbrev pub or_older : Option RawSample → Option RawSample → Option RawSample
or_older none o = o
or_older (some s) o = some s

-- The loop on lists.
abbrev pub list_step :
    Order
    → (List RawSample → List RawSample → List RawSample)
    → RawSample
    → List RawSample
    → RawSample
    → List RawSample
    → List RawSample
list_step older go x l n new = n ∷ go (x ∷ l) new
list_step same go x l n new = n ∷ go l new
list_step newer go x l n new = x ∷ go l (n ∷ new)

unfoldable pub merge_list : ℕ → List RawSample → List RawSample → List RawSample
unfolding order
merge_list zero l new = []
merge_list (suc f) [] new = new
merge_list (suc f) (x ∷ l) [] = x ∷ l
merge_list (suc f) (x ∷ l) (n ∷ new) =
    list_step (order n.timestamp x.timestamp) (λ l' new'. merge_list f l' new') x l n new

step-list :
    (o : Order) (f : ℕ) (x : RawSample) (l : List RawSample) (n : RawSample) (new : List RawSample)
    (m : CompressedRawSamples)
    → ((l' new' : List RawSample) (m' : CompressedRawSamples)
        → merge_loop f l' new' m' ≡ append_samples (merge_list f l' new') m')
    → merge_step o (λ l' new' m'. merge_loop f l' new' m') x l n new m
      ≡ append_samples (list_step o (λ l' new'. merge_list f l' new') x l n new) m
unfolding append_samples
step-list older f x l n new m ih = ih (x ∷ l) new (append_sample n m)
step-list same f x l n new m ih = ih l new (append_sample n m)
step-list newer f x l n new m ih = ih l (n ∷ new) (append_sample x m)

pub merge_loop-merge_list :
    (f : ℕ) (l new : List RawSample) (m : CompressedRawSamples)
    → merge_loop f l new m ≡ append_samples (merge_list f l new) m
unfolding merge_loop merge_list
merge_loop-merge_list zero l new m = unfold append_samples in refl
merge_loop-merge_list (suc f) [] new m = refl
merge_loop-merge_list (suc f) (x ∷ l) [] m = refl
merge_loop-merge_list (suc f) (x ∷ l) (n ∷ new) m =
    step-list (order n.timestamp x.timestamp) f x l n new m (merge_loop-merge_list f)

-- What the order of two times says.
abbrev pub Says : Order → ℤ → ℤ → Type 0
Says older n x = n <ℤ x
Says same n x = n ≡ x
Says newer n x = x <ℤ n

pub order-Says : (n x : ℤ) → Says (order n x) n x
unfolding order
order-Says n x =
    either_by (λ o. Says o n x) (ltb_ℤ n x) (λ e. ground arith)
      (λ e.
        either_by (λ o. Says o n x) (eqb_ℤ n x) (λ e'. eq_of_parts n x (ground arith))
          (λ e'. ground arith))

pub find-Above : (t : ℤ) (l : List RawSample) → Above t l → find t l ≡ none
unfolding find
find-Above t [] h = refl
find-Above t (s ∷ l) h =
    if_false (λ o. o ≡ none) (some s) (eqb_ℤ t s.timestamp) (ground arith) (find-Above t l h.1)

pub Above-Above : (t u : ℤ) (l : List RawSample) → t <ℤ u → Above u l → Above t l
Above-Above t u [] h a = tt
Above-Above t u (s ∷ l) h a = (omega arith, Above-Above t u l h a.1)

Above-step :
    (t : ℤ) (o : Order) (f : ℕ) (x : RawSample) (l : List RawSample) (n : RawSample)
    (new : List RawSample)
    → ((l' new' : List RawSample) → Above t l' → Above t new' → Above t (merge_list f l' new'))
    → Above t (x ∷ l)
    → Above t (n ∷ new)
    → Above t (list_step o (λ l' new'. merge_list f l' new') x l n new)
Above-step t older f x l n new ih a b = (b.0, ih (x ∷ l) new a b.1)
Above-step t same f x l n new ih a b = (b.0, ih l new a.1 b.1)
Above-step t newer f x l n new ih a b = (a.0, ih l (n ∷ new) a.1 b)

Above-merge_list :
    (t : ℤ) (f : ℕ) (l new : List RawSample)
    → Above t l
    → Above t new
    → Above t (merge_list f l new)
unfolding merge_list
Above-merge_list t zero l new a b = tt
Above-merge_list t (suc f) [] new a b = b
Above-merge_list t (suc f) (x ∷ l) [] a b = a
Above-merge_list t (suc f) (x ∷ l) (n ∷ new) a b =
    Above-step t (order n.timestamp x.timestamp) f x l n new (Above-merge_list t f) a b

IsRising-step :
    (o : Order) (f : ℕ) (x : RawSample) (l : List RawSample) (n : RawSample) (new : List RawSample)
    → Says o n.timestamp x.timestamp
    → ((l' new' : List RawSample) → IsRising l' → IsRising new' → IsRising (merge_list f l' new'))
    → IsRising (x ∷ l)
    → IsRising (n ∷ new)
    → IsRising (list_step o (λ l' new'. merge_list f l' new') x l n new)
IsRising-step older f x l n new says ih a b = (
  Above-merge_list n.timestamp f (x ∷ l) new (says, Above-Above n.timestamp x.timestamp l says a.0)
      b.0,
  ih (x ∷ l) new a b.1,
)
IsRising-step same f x l n new says ih a b =
    (Above-merge_list n.timestamp f l new (rw says a.0) b.0, ih l new a.1 b.1)
IsRising-step newer f x l n new says ih a b = (
  Above-merge_list x.timestamp f l (n ∷ new) a.0
      (says, Above-Above x.timestamp n.timestamp new says b.0),
  ih l (n ∷ new) a.1 b,
)

pub IsRising-merge_list :
    (f : ℕ) (l new : List RawSample) → IsRising l → IsRising new → IsRising (merge_list f l new)
unfolding merge_list
IsRising-merge_list zero l new a b = tt
IsRising-merge_list (suc f) [] new a b = b
IsRising-merge_list (suc f) (x ∷ l) [] a b = a
IsRising-merge_list (suc f) (x ∷ l) (n ∷ new) a b =
    IsRising-step (order n.timestamp x.timestamp) f x l n new (order-Says n.timestamp x.timestamp)
      (IsRising-merge_list f) a b

pub find-cons :
    (t : ℤ) (s : RawSample) (l : List RawSample)
    → find t (s ∷ l) ≡ (if eqb_ℤ t s.timestamp then some s else find t l)
unfolding find
find-cons t s l = refl

find-step :
    (t : ℤ) (o : Order) (f : ℕ) (x : RawSample) (l : List RawSample) (n : RawSample)
    (new : List RawSample)
    → Says o n.timestamp x.timestamp
    → length (x ∷ l) + length (n ∷ new) ≤ suc f
    → IsRising (n ∷ new)
    → ((l' new' : List RawSample)
        → length l' + length new' ≤ f
        → IsRising new'
        → find t (merge_list f l' new') ≡ or_older (find t new') (find t l'))
    → find t (list_step o (λ l' new'. merge_list f l' new') x l n new)
      ≡ or_older (find t (n ∷ new)) (find t (x ∷ l))
find-step t older f x l n new says fuel r ih =
    let rest = ih (x ∷ l) new (omega arith) r.1 in
    ground (arith, rest, find-cons t n (merge_list f (x ∷ l) new), find-cons t n new)
find-step t same f x l n new says fuel r ih =
    let rest = ih l new (omega arith) r.1 in
    ground
      (arith, rest, says, find-cons t n (merge_list f l new), find-cons t n new, find-cons t x l)
find-step t newer f x l n new says fuel r ih =
    let rest = ih l (n ∷ new) (omega arith) r in
    elim (Bool-cases (eqb_ℤ t x.timestamp)) [
      | inl e ↦
          let here : t ≡ x.timestamp = eq_of_parts t x.timestamp (ground arith) in
          let nowhere : find t (n ∷ new) ≡ none = find-Above t (n ∷ new) (
            subst (λ u. Above u (n ∷ new)) (sym here)
              (says, Above-Above x.timestamp n.timestamp new says r.0)) in
          ground (arith, e, nowhere, find-cons t x (merge_list f l (n ∷ new)), find-cons t x l)
      | inr e ↦ ground (arith, e, rest, find-cons t x (merge_list f l (n ∷ new)), find-cons t x l)
    ]

pub or_older-none : (o : Option RawSample) → or_older o none ≡ o
or_older-none none = refl
or_older-none (some s) = refl

pub find-merge_list :
    (t : ℤ) (f : ℕ) (l new : List RawSample)
    → length l + length new ≤ f
    → IsRising new
    → find t (merge_list f l new) ≡ or_older (find t new) (find t l)
unfolding merge_list
find-merge_list t zero [] [] fuel r = unfold find in refl
find-merge_list t zero [] (n ∷ new) fuel r = absurd (omega arith)
find-merge_list t zero (x ∷ l) new fuel r = absurd (omega arith)
find-merge_list t (suc f) [] new fuel r = unfold find in sym (or_older-none (find t new))
find-merge_list t (suc f) (x ∷ l) [] fuel r = unfold find in refl
find-merge_list t (suc f) (x ∷ l) (n ∷ new) fuel r =
    find-step t (order n.timestamp x.timestamp) f x l n new (order-Says n.timestamp x.timestamp)
      fuel r (find-merge_list t f)

pub last-Above :
    (t : ℤ) (l : List RawSample) (n : ℤ)
    → Above t l
    → IsRising l
    → last_stamp_of t l <ℤ n
    → (t <ℤ n) × All (λ x. x.timestamp <ℤ n) l
last-Above t [] n a r h = (h, tt)
last-Above t (s ∷ l) n a r h =
    let (first, more) = last-Above s.timestamp l n r.0 r.1 h in (omega arith, (first, more))
