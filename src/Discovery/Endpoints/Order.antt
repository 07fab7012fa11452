-- ===== src/Discovery/Endpoints/Order.antt =====
-- When two replies of Consul give the same endpoints.
use web_cloud_disk.Base.{
  ◌≡◌, ◌≢◌, ◌↔◌, refl, sym, ap, ◌∙◌, inl, inr, false, List, [], ◌∷◌, Bytes, Result, success, fail,
  if◌then◌else◌, is_empty, beq, beq_refl, beq→eq, Bool-cases, arith,
}
use web_cloud_disk.Discovery.Endpoints.{
  ServiceInstance, ServiceEndpoint, lt_text, usable, stable_sort, make_endpoints,
}
use web_cloud_disk.Discovery.Endpoints.Sorting.{
  Sorted, of_id, lt_text_irrefl, stable_sort-Sorted, of_id-stable_sort,
}

-- `operator<` of strings is total, and so is its negation transitive.
lt_text_total : (s t : Bytes) → lt_text s t ≡ false → lt_text t s ≡ false → s ≡ t
unfolding lt_text
lt_text_total [] [] h k = refl
lt_text_total [] (d ∷ t) h k = absurd (cc h)
lt_text_total (c ∷ s) [] h k = absurd (cc k)
lt_text_total (c ∷ s) (d ∷ t) h k = ground (arith, lt_text_total s t)

ge_text_trans : (s t u : Bytes) → lt_text s t ≡ false → lt_text t u ≡ false → lt_text s u ≡ false
unfolding lt_text
ge_text_trans s t [] h k = refl
ge_text_trans s [] (e ∷ u) h k = absurd (cc k)
ge_text_trans [] (d ∷ t) (e ∷ u) h k = absurd (cc h)
ge_text_trans (c ∷ s) (d ∷ t) (e ∷ u) h k = ground (arith, ge_text_trans s t u)

-- The first endpoint has the least ID.
first_least :
    (i : Bytes) (y : ServiceEndpoint) (ys : List ServiceEndpoint)
    → Sorted (y ∷ ys)
    → of_id i (y ∷ ys) ≢ []
    → lt_text i y.instance_id ≡ false
first_least i y [] s h = elim (Bool-cases (beq y.instance_id i)) [
  | inl e ↦ rw (beq→eq y.instance_id i e) (lt_text_irrefl i)
  | inr e ↦ absurd (h (rw e refl))
]
first_least i y (z ∷ zs) (le, s) h = elim (Bool-cases (beq y.instance_id i)) [
  | inl e ↦ rw (beq→eq y.instance_id i e) (lt_text_irrefl i)
  | inr e ↦ ge_text_trans i z.instance_id y.instance_id (first_least i z zs s (λ n. h (rw e n))) le
]

Sorted-tail : (x : ServiceEndpoint) (xs : List ServiceEndpoint) → Sorted (x ∷ xs) → Sorted xs
Sorted-tail x [] s = tt
Sorted-tail x (y ∷ ys) (le, s) = s

of_own_id :
    (x : ServiceEndpoint) (xs : List ServiceEndpoint)
    → of_id x.instance_id (x ∷ xs) ≡ x ∷ of_id x.instance_id xs
of_own_id x xs = rw (beq_refl x.instance_id) refl

same_first :
    (x y : ServiceEndpoint) (xs ys : List ServiceEndpoint)
    → Sorted (x ∷ xs)
    → Sorted (y ∷ ys)
    → ((i : Bytes) → of_id i (x ∷ xs) ≡ of_id i (y ∷ ys))
    → x.instance_id ≡ y.instance_id
same_first x y xs ys s t h =
    lt_text_total x.instance_id y.instance_id
      (first_least x.instance_id y ys t (λ n. cc (sym (of_own_id x xs) ∙ h x.instance_id ∙ n)))
      (first_least y.instance_id x xs s
        (λ n. cc (sym (of_own_id y ys) ∙ sym (h y.instance_id) ∙ n)))

same_rest :
    (x : ServiceEndpoint) (xs ys : List ServiceEndpoint) (i : Bytes)
    → of_id i (x ∷ xs) ≡ of_id i (x ∷ ys)
    → of_id i xs ≡ of_id i ys
same_rest x xs ys i h = ground arith

-- A sorted list is determined by the endpoints of each ID.
pub Sorted-unique :
    (xs ys : List ServiceEndpoint)
    → Sorted xs
    → Sorted ys
    → ((i : Bytes) → of_id i xs ≡ of_id i ys)
    → xs ≡ ys
Sorted-unique [] [] s t h = refl
Sorted-unique [] (y ∷ ys) s t h = absurd (cc (h y.instance_id ∙ of_own_id y ys))
Sorted-unique (x ∷ xs) [] s t h = absurd (cc (sym (of_own_id x xs) ∙ h x.instance_id))
Sorted-unique (x ∷ xs) (y ∷ ys) s t h =
    let id = same_first x y xs ys s t h in
    let own : x ∷ of_id x.instance_id xs ≡ y ∷ of_id y.instance_id ys =
      sym (of_own_id x xs)
      ∙ h x.instance_id
      ∙ ap (λ (i : Bytes). of_id i (y ∷ ys)) id
      ∙ of_own_id y ys in
    let same : x ≡ y = cc own in
    let rest = Sorted-unique xs ys (Sorted-tail x xs s) (Sorted-tail y ys t) (λ i.
      same_rest x xs ys i (h i ∙ ap (λ (z : ServiceEndpoint). of_id i (z ∷ ys)) (sym same))) in
    cc

-- Two lists that are sorted to the same one hold the same endpoints of each ID.
pub stable_sort_iff :
    (xs ys : List ServiceEndpoint)
    → (stable_sort xs ≡ stable_sort ys) ↔ ((i : Bytes) → of_id i xs ≡ of_id i ys)
stable_sort_iff xs ys = (
  λ e i. sym (of_id-stable_sort i xs) ∙ ap (of_id i) e ∙ of_id-stable_sort i ys,
  λ h.
      Sorted-unique (stable_sort xs) (stable_sort ys) (stable_sort-Sorted xs)
        (stable_sort-Sorted ys) (λ i. of_id-stable_sort i xs ∙ h i ∙ sym (of_id-stable_sort i ys)),
)

abbrev answer_of : List ServiceEndpoint → Result (List ServiceEndpoint)
answer_of es =
    if is_empty es
    then fail 503 "No healthy service instance available"
    else success (stable_sort es)

answer_of_iff :
    (xs ys : List ServiceEndpoint)
    → (answer_of xs ≡ answer_of ys) ↔ ((i : Bytes) → of_id i xs ≡ of_id i ys)
answer_of_iff [] [] = (λ e i. refl, λ h. refl)
answer_of_iff [] (y ∷ ys) =
    (λ e. absurd (cc e), λ h. absurd (cc (h y.instance_id ∙ of_own_id y ys)))
answer_of_iff (x ∷ xs) [] =
    (λ e. absurd (cc e), λ h. absurd (cc (sym (of_own_id x xs) ∙ h x.instance_id)))
answer_of_iff (x ∷ xs) (y ∷ ys) =
    let (to, back) = stable_sort_iff (x ∷ xs) (y ∷ ys) in (λ e. to (cc e), λ h. ap success (back h))

-- Two replies of Consul give the same answer, endpoints or error, exactly when they name the same usable
-- instances of each ID in the same order; how the instances of different IDs are mixed makes no
-- difference.
pub make_endpoints_iff :
    (instances others : List ServiceInstance)
    → (make_endpoints instances ≡ make_endpoints others)
      ↔ ((i : Bytes) → of_id i (usable instances) ≡ of_id i (usable others))
unfolding make_endpoints
make_endpoints_iff instances others = answer_of_iff (usable instances) (usable others)
