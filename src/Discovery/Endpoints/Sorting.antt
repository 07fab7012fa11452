-- ===== src/Discovery/Endpoints/Sorting.antt =====
-- The endpoints that discovery hands out.
use web_cloud_disk.Base.{
  ◌≡◌, ◌≢◌, refl, ◌∙◌, true, false, List, [], ◌∷◌, Bytes, success, if◌then◌else◌, All, beq, beq_iff,
  arith,
}
use web_cloud_disk.Discovery.Endpoints.{
  ServiceInstance, ServiceEndpoint, lt_text, usable, insert, stable_sort, make_endpoints,
}

lt_text-asymm : (s t : Bytes) → lt_text s t ≡ true → lt_text t s ≡ false
unfolding lt_text
lt_text-asymm s [] h = cc
lt_text-asymm [] (d ∷ t) h = refl
lt_text-asymm (c ∷ s) (d ∷ t) h = ground (arith, lt_text-asymm s t)

pub lt_text_irrefl : (s : Bytes) → lt_text s s ≡ false
unfolding lt_text
lt_text_irrefl [] = refl
lt_text_irrefl (c ∷ s) = ground (arith, lt_text_irrefl s)

-- No endpoint has a smaller ID than the one before it.
abbrev pub Sorted : List ServiceEndpoint → Type 0
Sorted [] = Unit
Sorted (x ∷ []) = Unit
Sorted (x ∷ y ∷ ys) = (lt_text y.instance_id x.instance_id ≡ false) × Sorted (y ∷ ys)

-- The endpoints of one ID, in order.
abbrev pub of_id : Bytes → List ServiceEndpoint → List ServiceEndpoint
of_id i [] = []
of_id i (x ∷ xs) = if beq x.instance_id i then x ∷ of_id i xs else of_id i xs

abbrev pub IsUsable : ServiceEndpoint → Type 0
IsUsable e = (e.host ≢ []) × (e.port ≢ 0)

insert-Sorted : (x : ServiceEndpoint) (xs : List ServiceEndpoint) → Sorted xs → Sorted (insert x xs)
unfolding insert
insert-Sorted x [] h = tt
insert-Sorted x (y ∷ []) h = ground (arith, lt_text-asymm y.instance_id x.instance_id)
insert-Sorted x (y ∷ z ∷ ys) (h, hs) = ground (
  arith,
  lt_text-asymm y.instance_id x.instance_id,
  lt_text-asymm z.instance_id x.instance_id,
  insert-Sorted x (z ∷ ys) hs,
)

pub stable_sort-Sorted : (xs : List ServiceEndpoint) → Sorted (stable_sort xs)
unfolding stable_sort
stable_sort-Sorted [] = tt
stable_sort-Sorted (x ∷ xs) = insert-Sorted x (stable_sort xs) (stable_sort-Sorted xs)

of_id-insert :
    (i : Bytes) (x : ServiceEndpoint) (xs : List ServiceEndpoint)
    → of_id i (insert x xs) ≡ of_id i (x ∷ xs)
unfolding insert
of_id-insert i x [] = refl
of_id-insert i x (y ∷ ys) =
    ground (
      arith,
      of_id-insert i x ys,
      beq_iff x.instance_id i,
      beq_iff y.instance_id i,
      lt_text_irrefl i,
    )

pub of_id-stable_sort :
    (i : Bytes) (xs : List ServiceEndpoint) → of_id i (stable_sort xs) ≡ of_id i xs
unfolding stable_sort
of_id-stable_sort i [] = refl
of_id-stable_sort i (x ∷ xs) =
    of_id-insert i x (stable_sort xs) ∙ ground (arith, of_id-stable_sort i xs)

insert-All :
    (x : ServiceEndpoint) (xs : List ServiceEndpoint)
    → IsUsable x
    → All IsUsable xs
    → All IsUsable (insert x xs)
unfolding insert
insert-All x [] h a = (h, tt)
insert-All x (y ∷ ys) h (a, as') = ground (arith, insert-All x ys h as')

stable_sort-All : (xs : List ServiceEndpoint) → All IsUsable xs → All IsUsable (stable_sort xs)
unfolding stable_sort
stable_sort-All [] a = tt
stable_sort-All (x ∷ xs) (a, as') = insert-All x (stable_sort xs) a (stable_sort-All xs as')

usable-All : (is : List ServiceInstance) → All IsUsable (usable is)
unfolding usable
usable-All [] = tt
usable-All (i ∷ is) = ground (arith, usable-All is)

-- The endpoints handed out have a host and a port, are sorted by ID, and are the usable ones among
-- the instances, those of one ID in the order in which Consul named them.
pub make_endpoints-success :
    (instances : List ServiceInstance) (es : List ServiceEndpoint)
    → make_endpoints instances ≡ success es
    → All IsUsable es × Sorted es × ((i : Bytes) → of_id i es ≡ of_id i (usable instances))
unfolding make_endpoints
make_endpoints-success is es h =
    let same : stable_sort (usable is) ≡ es = ground arith in
    rw (← same) (
      stable_sort-All (usable is) (usable-All is),
      stable_sort-Sorted (usable is),
      λ i. of_id-stable_sort i (usable is),
    )
