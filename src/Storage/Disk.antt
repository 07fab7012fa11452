-- ===== src/Storage/Disk.antt =====
-- The regular files of the disk, and what the requests of the services do to them. Other requests may
-- change the disk before each call, within a relation that they keep.
pub mod Footprint
pub mod Sending
use web_cloud_disk.Base.{
  ◌≡◌, ◌≢◌, ◌⊎◌, beq_refl, beq→eq, Bool-cases, inl, inr, true, false, Option, none, some, List, [],
  ◌∷◌, ◌++◌, Bytes, beq, if◌then◌else◌, Result, AppError, success, failure,
}
use web_cloud_disk.Flow.{Exchange, Ensures, Flow, answer, call, ◌>>=◌, then_with}
use web_cloud_disk.Backend.{
  Contents, Filled, Request, Reply, Task, mysql, compute, rand_bytes, system_now,
  create_directories, is_regular_file, open_truncate, write_flush, remove, rename, read_file,
  basic_publish, should_stop, basic_consume, basic_reject, basic_ack, basic_cancel, put_object,
  open_channel, declare_queue, basic_consume_start,
}

-- The content of the regular file at a path.
abbrev pub Files : Type 0
Files = Bytes → Option Bytes

unfoldable pub put : Bytes → Option Bytes → Files → Files
put p x files q = if beq p q then x else files q

-- What a request may do to the files. A failed write may leave any content behind, a failed removal
-- nothing changed; `rename` replaces its target in one step. `drawn` are the random bytes that the
-- request in view draws.
abbrev pub Effect : Bytes → Files → (c : Request) → Reply c → Files → Type 0
Effect drawn f (is_regular_file p) r f' = (f' ≡ f) × (r.regular ≡ true → f p ≢ none)
Effect drawn f (open_truncate p) true f' = f' ≡ put p (some []) f
Effect drawn f (open_truncate p) false f' = f' ≡ f
Effect drawn f (write_flush p s) true f' = f' ≡ put p (some s) f
Effect drawn f (write_flush p s) false f' = (left : Bytes) × (f' ≡ put p (some left) f)
Effect drawn f (remove p) r f' = (f' ≡ put p none f) ⊎ (f' ≡ f)
Effect drawn f (rename p q) true f' =
    (s : Bytes) × (f p ≡ some s) × (f' ≡ put p none (put q (some s) f))
Effect drawn f (rename p q) false f' = f' ≡ f
Effect drawn f (rand_bytes n) r f' = (f' ≡ f) × ((b : Filled n) → r ≡ some b → b.bytes ≡ drawn)
Effect drawn f (read_file p) r f' =
    (f' ≡ f) × ((c : Contents) → r ≡ some c → c.bad ≡ false → f p ≡ some c.content)
Effect drawn f (create_directories p) r f' = f' ≡ f
Effect drawn f (mysql sql) r f' = f' ≡ f
Effect drawn f compute r f' = f' ≡ f
Effect drawn f system_now r f' = f' ≡ f
Effect drawn f (basic_publish q b m) r f' = f' ≡ f
Effect drawn f should_stop r f' = f' ≡ f
Effect drawn f basic_consume r f' = f' ≡ f
Effect drawn f basic_reject r f' = f' ≡ f
Effect drawn f basic_ack r f' = f' ≡ f
Effect drawn f basic_cancel r f' = f' ≡ f
Effect drawn f (put_object b k p) r f' = f' ≡ f
Effect drawn f (open_channel o) r f' = f' ≡ f
Effect drawn f (declare_queue q) r f' = f' ≡ f
Effect drawn f (basic_consume_start q) r f' = f' ≡ f

-- What holds of the files when a query is sent.
abbrev pub AtQuery : (Files → Bytes → Type 0) → Files → Request → Type 0
AtQuery at f (mysql sql) = at f sql
AtQuery at f _ = Unit

-- Each query is sent where `at` holds, each call keeps `guar`, and the answer meets `P`, if the others
-- keep `rely` before each call.
abbrev pub Safe :
    {A : Type 0}
    → Bytes
    → (Files → Files → Type 0)
    → (Files → Files → Type 0)
    → (Files → Bytes → Type 0)
    → (Files → A → Type 0)
    → Files
    → Flow Request Reply A
    → Type 0
Safe drawn rely guar at P f (answer a) = P f a
Safe drawn rely guar at P f (call c k) =
    (f₁ : Files)
    → rely f f₁
    → (r : Reply c) (f₂ : Files) → Effect drawn f₁ c r f₂
    → AtQuery at f₁ c × guar f₁ f₂ × Safe drawn rely guar at P f₂ (k r)

-- Of the exchanges, the files and the answer `P` holds at the end, if the others keep `rely` before each
-- call and the replies are those that `Allowed` admits after what was exchanged before.
abbrev pub Leads :
    {A : Type 0}
    → Bytes
    → (Files → Files → Type 0)
    → (List (Exchange Request Reply) → Exchange Request Reply → Type 0)
    → (List (Exchange Request Reply) → Files → A → Type 0)
    → List (Exchange Request Reply)
    → Files
    → Flow Request Reply A
    → Type 0
Leads drawn rely Allowed P past f (answer a) = P past f a
Leads drawn rely Allowed P past f (call c k) =
    (f₁ : Files)
    → rely f f₁
    → (r : Reply c) (f₂ : Files) → Effect drawn f₁ c r f₂
    → Allowed past (record { command = c; reply = r })
    → Leads drawn rely Allowed P (past ++ record { command = c; reply = r } ∷ []) f₂ (k r)

pub put_self : (p : Bytes) (x : Option Bytes) (f : Files) → put p x f p ≡ x
unfolding put
put_self p x f = rw (beq_refl p)

pub put_ne : (p q : Bytes) (x : Option Bytes) (f : Files) → p ≢ q → put p x f q ≡ f q
unfolding put
put_ne p q x f h = elim (Bool-cases (beq p q)) [ inl e ↦ absurd (h (beq→eq p q e)) | inr e ↦ rw e ]

module _ (drawn : Bytes) (rely guar : Files → Files → Type 0) (at : Files → Bytes → Type 0) where
  -- The rest may rely on what the first part ends with.
  pub Safe->>= :
      {A B : Type 0} (Q : Files → Result A → Type 0) (P : Files → Result B → Type 0) (f : Files)
      (m : Task A) (k : A → Task B)
      → Safe drawn rely guar at Q f m
      → ((f' : Files) (a : A) → Q f' (success a) → Safe drawn rely guar at P f' (k a))
      → ((f' : Files) (e : AppError) → Q f' (failure e) → P f' (failure e))
      → Safe drawn rely guar at P f (m >>= k)
  Safe->>= Q P f (answer (success a)) k h ok bad = ok f a h
  Safe->>= Q P f (answer (failure e)) k h ok bad = bad f e h
  Safe->>= Q P f (call c g) k h ok bad = λ f₁ r₁ r f₂ eff.
      let (a, g₂, rest) = h f₁ r₁ r f₂ eff in (a, g₂, Safe->>= Q P f₂ (g r) k rest ok bad)

  pub Safe-then_with :
      {A B : Type 0} (Q : Files → A → Type 0) (P : Files → B → Type 0) (f : Files)
      (m : Flow Request Reply A) (k : A → Flow Request Reply B)
      → Safe drawn rely guar at Q f m
      → ((f' : Files) (a : A) → Q f' a → Safe drawn rely guar at P f' (k a))
      → Safe drawn rely guar at P f (then_with m k)
  Safe-then_with Q P f (answer a) k h ok = ok f a h
  Safe-then_with Q P f (call c g) k h ok = λ f₁ r₁ r f₂ eff.
      let (a, g₂, rest) = h f₁ r₁ r f₂ eff in (a, g₂, Safe-then_with Q P f₂ (g r) k rest ok)

module _ (drawn : Bytes) (rely : Files → Files → Type 0)
    (Allowed : List (Exchange Request Reply) → Exchange Request Reply → Type 0) where
  -- What every run does to the files, and what it has exchanged.
  pub Leads-of_Safe :
      {A : Type 0} (guar : Files → Files → Type 0) (at : Files → Bytes → Type 0)
      (P : Files → A → Type 0) (Q : List (Exchange Request Reply) → A → Type 0)
      (past : List (Exchange Request Reply)) (f : Files) (m : Flow Request Reply A)
      → Safe drawn rely guar at P f m
      → Ensures Q past m
      → Leads drawn rely Allowed (λ past' f' a. P f' a × Q past' a) past f m
  Leads-of_Safe guar at P Q past f (answer a) s e = (s, e)
  Leads-of_Safe guar at P Q past f (call c k) s e = λ f₁ r₁ r f₂ eff allowed.
      Leads-of_Safe guar at P Q (past ++ record { command = c; reply = r } ∷ []) f₂ (k r)
        (s f₁ r₁ r f₂ eff).2 (e r)

  pub Leads-then_with :
      {A B : Type 0} (Q : List (Exchange Request Reply) → Files → A → Type 0)
      (P : List (Exchange Request Reply) → Files → B → Type 0)
      (past : List (Exchange Request Reply)) (f : Files) (m : Flow Request Reply A)
      (k : A → Flow Request Reply B)
      → Leads drawn rely Allowed Q past f m
      → ((past' : List (Exchange Request Reply)) (f' : Files) (a : A)
          → Q past' f' a
          → Leads drawn rely Allowed P past' f' (k a))
      → Leads drawn rely Allowed P past f (then_with m k)
  Leads-then_with Q P past f (answer a) k h ok = ok past f a h
  Leads-then_with Q P past f (call c g) k h ok = λ f₁ r₁ r f₂ eff allowed.
      Leads-then_with Q P (past ++ record { command = c; reply = r } ∷ []) f₂ (g r) k
        (h f₁ r₁ r f₂ eff allowed) ok
