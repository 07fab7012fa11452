-- ===== src/Storage/Disk/Footprint.antt =====
-- What a series of requests does to the files by itself, whatever the others do.
use web_cloud_disk.Base.{Bytes, success, failure}
use web_cloud_disk.Flow.{Flow, answer, call, ◌>>=◌, then_with}
use web_cloud_disk.Backend.{Request, Reply, Task, mysql}
use web_cloud_disk.Storage.Disk.{Files, Effect, AtQuery, Safe}

-- Every call keeps `own`, from any files on.
abbrev pub Leaves : {A : Type 0} → Bytes → (Files → Files → Type 0) → Flow Request Reply A → Type 0
Leaves drawn own (answer a) = Unit
Leaves drawn own (call c k) =
    (f f' : Files) (r : Reply c) → Effect drawn f c r f' → own f f' × Leaves drawn own (k r)

module _ (drawn : Bytes) (own : Files → Files → Type 0) where
  pub Leaves->>= :
      {A B : Type 0} (m : Task A) (k : A → Task B)
      → Leaves drawn own m
      → ((a : A) → Leaves drawn own (k a))
      → Leaves drawn own (m >>= k)
  Leaves->>= (answer (success a)) k h rest = rest a
  Leaves->>= (answer (failure e)) k h rest = tt
  Leaves->>= (call c g) k h rest =
      λ f f' r eff. let (o, later) = h f f' r eff in (o, Leaves->>= (g r) k later rest)

  pub Leaves-then_with :
      {A B : Type 0} (m : Flow Request Reply A) (k : A → Flow Request Reply B)
      → Leaves drawn own m
      → ((a : A) → Leaves drawn own (k a))
      → Leaves drawn own (then_with m k)
  Leaves-then_with (answer a) k h rest = rest a
  Leaves-then_with (call c g) k h rest =
      λ f f' r eff. let (o, later) = h f f' r eff in (o, Leaves-then_with (g r) k later rest)

  -- What a series guarantees while the others keep their part, with what it does by itself.
  pub Safe-Leaves :
      {A : Type 0} (rely guar : Files → Files → Type 0) (at : Files → Bytes → Type 0)
      (P : Files → A → Type 0) (f : Files) (m : Flow Request Reply A)
      → Safe drawn rely guar at P f m
      → Leaves drawn own m
      → Safe drawn rely (λ g g'. guar g g' × own g g') at P f m
  Safe-Leaves rely guar at P f (answer a) s l = s
  Safe-Leaves rely guar at P f (call c k) s l = λ f₁ r₁ r f₂ eff.
      let (a, g, rest) = s f₁ r₁ r f₂ eff in
      let (o, later) = l f₁ f₂ r eff in (a, (g, o), Safe-Leaves rely guar at P f₂ (k r) rest later)

-- A series that asks less of the others and promises less.
module _ (drawn : Bytes) (rely guar rely' guar' : Files → Files → Type 0)
    (at at' : Files → Bytes → Type 0) (more : (f f' : Files) → rely' f f' → rely f f')
    (less : (f f' : Files) → guar f f' → guar' f f')
    (sent : (f : Files) (sql : Bytes) → at f sql → at' f sql) where
  at_query : (f : Files) (c : Request) → AtQuery at f c → AtQuery at' f c
  at_query f (mysql sql) a = sent f sql a
  at_query f _ a = tt

  pub Safe-weaken :
      {A : Type 0} (P P' : Files → A → Type 0)
      → ((f : Files) (a : A) → P f a → P' f a)
      → (f : Files) (m : Flow Request Reply A) → Safe drawn rely guar at P f m
      → Safe drawn rely' guar' at' P' f m
  Safe-weaken P P' out f (answer a) s = out f a s
  Safe-weaken P P' out f (call c k) s = λ f₁ r₁ r f₂ eff.
      let (a, g, rest) = s f₁ (more f f₁ r₁) r f₂ eff in
      (at_query f₁ c a, less f₁ f₂ g, Safe-weaken P P' out f₂ (k r) rest)
