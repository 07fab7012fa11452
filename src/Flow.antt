-- ===== src/Flow.antt =====
-- common/TaskScheduler.h and the callbacks that the services hand to it. A request is a series of
-- tasks that run one after the other, each with a callback that goes on with the task's result. Such
-- a series is a tree: what the program asks of its surroundings next, and for each reply the rest.
-- `answer` is the call of the request's own callback. Other requests may run between two calls.
use web_cloud_disk.Base.{
  AppError, Result, success, failure, List, [], ◌∷◌, ◌++◌, ◌≡◌, refl, ◌⊎◌, inl, inr,
}

-- `C` are the requests to the surroundings, `R c` the replies to `c`.
pub data Flow (C : Type 0) (R : C → Type 0) (A : Type 0) : Type 0 where
  answer : A → Flow C R A
  call : (c : C) → (R c → Flow C R A) → Flow C R A

-- One exchange with the surroundings.
pub record Exchange (C : Type 0) (R : C → Type 0) : Type 0 where
  pub command : C
  pub reply : R command

module _ {C : Type 0} {R : C → Type 0} where
  infixl 5 ◌>>=◌ ◌>>◌
  -- The rest runs on success; an error is passed on, `callback(failure(result.error()))`.
  abbrev pub ◌>>=◌ :
      {A B : Type 0} → Flow C R (Result A) → (A → Flow C R (Result B)) → Flow C R (Result B)
  answer (success a) >>= k = k a
  answer (failure e) >>= k = answer (failure e)
  call c f >>= k = call c (λ r. f r >>= k)

  abbrev pub ◌>>◌ :
      {B : Type 0} → Flow C R (Result (Unit {0})) → Flow C R (Result B) → Flow C R (Result B)
  m >> k = m >>= λ _. k

  -- The rest takes the result, whatever it is.
  abbrev pub then_with : {A B : Type 0} → Flow C R A → (A → Flow C R B) → Flow C R B
  then_with (answer a) k = k a
  then_with (call c f) k = call c (λ r. then_with (f r) k)

  -- `P` holds of what was exchanged and of the answer, whatever the replies are.
  abbrev pub Ensures :
      {A : Type 0} → (List (Exchange C R) → A → Type 0) → List (Exchange C R) → Flow C R A → Type 0
  Ensures P past (answer a) = P past a
  Ensures P past (call c k) =
      (r : R c) → Ensures P (past ++ record { command = c; reply = r } ∷ []) (k r)

  -- `Q` holds of the past whenever a request is made, whatever the replies are.
  abbrev pub Always :
      {A : Type 0} → (List (Exchange C R) → C → Type 0) → List (Exchange C R) → Flow C R A → Type 0
  Always Q past (answer a) = Unit
  Always Q past (call c k) =
      Q past c × ((r : R c) → Always Q (past ++ record { command = c; reply = r } ∷ []) (k r))

  -- The past of a series begins with an exchange, and goes on so.
  abbrev pub Starts : Exchange C R → List (Exchange C R) → Type 0
  Starts e [] = ⊥
  Starts e (x ∷ xs) = x ≡ e

  pub Starts-append :
      (e : Exchange C R) (xs ys : List (Exchange C R)) → Starts e xs → Starts e (xs ++ ys)
  Starts-append e [] ys h = absurd h
  Starts-append e (x ∷ xs) ys h = h

  -- What every run of the first part ensures is what every run of the rest may rely on.
  pub Ensures-then_with :
      {A B : Type 0} (Q : List (Exchange C R) → A → Type 0) (P : List (Exchange C R) → B → Type 0)
      (past : List (Exchange C R)) (m : Flow C R A) (k : A → Flow C R B)
      → Ensures Q past m
      → ((past' : List (Exchange C R)) (a : A) → Q past' a → Ensures P past' (k a))
      → Ensures P past (then_with m k)
  Ensures-then_with Q P past (answer a) k h ok = ok past a h
  Ensures-then_with Q P past (call c f) k h ok =
      λ r. Ensures-then_with Q P (past ++ record { command = c; reply = r } ∷ []) (f r) k (h r) ok

  -- The requests of the first part, and those of the rest after what it ensures.
  pub Always-then_with :
      {A B : Type 0} (Q : List (Exchange C R) → A → Type 0) (P : List (Exchange C R) → C → Type 0)
      (past : List (Exchange C R)) (m : Flow C R A) (k : A → Flow C R B)
      → Always P past m
      → Ensures Q past m
      → ((past' : List (Exchange C R)) (a : A) → Q past' a → Always P past' (k a))
      → Always P past (then_with m k)
  Always-then_with Q P past (answer a) k w h ok = ok past a h
  Always-then_with Q P past (call c f) k w h ok = (
    w.0,
    λ r.
        Always-then_with Q P (past ++ record { command = c; reply = r } ∷ []) (f r) k (w.1 r) (h r)
          ok,
  )

  -- An exchange is in the past.
  abbrev pub Seen : Exchange C R → List (Exchange C R) → Type 0
  Seen e [] = ⊥
  Seen e (x ∷ xs) = (x ≡ e) ⊎ Seen e xs

  pub Seen-last : (xs : List (Exchange C R)) (e : Exchange C R) → Seen e (xs ++ e ∷ [])
  Seen-last [] e = inl refl
  Seen-last (x ∷ xs) e = inr (Seen-last xs e)

  pub Seen-append : (e : Exchange C R) (xs ys : List (Exchange C R)) → Seen e xs → Seen e (xs ++ ys)
  Seen-append e [] ys h = absurd h
  Seen-append e (x ∷ xs) ys (inl p) = inl p
  Seen-append e (x ∷ xs) ys (inr h) = inr (Seen-append e xs ys h)

  pub Ensures-Seen :
      {A : Type 0} (e : Exchange C R) (past : List (Exchange C R)) (m : Flow C R A)
      → Seen e past
      → Ensures (λ past' a. Seen e past') past m
  Ensures-Seen e past (answer a) h = h
  Ensures-Seen e past (call c f) h = λ r.
      Ensures-Seen e (past ++ record { command = c; reply = r } ∷ []) (f r)
        (Seen-append e past (record { command = c; reply = r } ∷ []) h)

  -- After the first part nothing is known, but what holds of every error at every time.
  pub Ensures->>= :
      {A B : Type 0} (P : List (Exchange C R) → Result B → Type 0) (past : List (Exchange C R))
      (m : Flow C R (Result A)) (k : A → Flow C R (Result B))
      → ((past' : List (Exchange C R)) (a : A) → Ensures P past' (k a))
      → ((past' : List (Exchange C R)) (e : AppError) → P past' (failure e))
      → Ensures P past (m >>= k)
  Ensures->>= P past (answer (success a)) k ok bad = ok past a
  Ensures->>= P past (answer (failure e)) k ok bad = bad past e
  Ensures->>= P past (call c f) k ok bad =
      λ r. Ensures->>= P (past ++ record { command = c; reply = r } ∷ []) (f r) k ok bad

  -- `P` holds of what was exchanged and of the answer, whatever the replies are that `F` allows after
  -- what was exchanged before.
  abbrev pub Under :
      {A : Type 0}
      → (List (Exchange C R) → Exchange C R → Type 0)
      → (List (Exchange C R) → A → Type 0)
      → List (Exchange C R)
      → Flow C R A
      → Type 0
  Under F P past (answer a) = P past a
  Under F P past (call c k) =
      (r : R c)
      → F past (record { command = c; reply = r })
      → Under F P (past ++ record { command = c; reply = r } ∷ []) (k r)

  pub Under-of_Ensures :
      {A : Type 0} (F : List (Exchange C R) → Exchange C R → Type 0)
      (Q P : List (Exchange C R) → A → Type 0) (past : List (Exchange C R)) (m : Flow C R A)
      → Ensures Q past m
      → ((past' : List (Exchange C R)) (a : A) → Q past' a → P past' a)
      → Under F P past m
  Under-of_Ensures F Q P past (answer a) h w = w past a h
  Under-of_Ensures F Q P past (call c f) h w = λ r allowed.
      Under-of_Ensures F Q P (past ++ record { command = c; reply = r } ∷ []) (f r) (h r) w

  pub Under-then_with :
      {A B : Type 0} (F : List (Exchange C R) → Exchange C R → Type 0)
      (Q : List (Exchange C R) → A → Type 0) (P : List (Exchange C R) → B → Type 0)
      (past : List (Exchange C R)) (m : Flow C R A) (k : A → Flow C R B)
      → Under F Q past m
      → ((past' : List (Exchange C R)) (a : A) → Q past' a → Under F P past' (k a))
      → Under F P past (then_with m k)
  Under-then_with F Q P past (answer a) k h ok = ok past a h
  Under-then_with F Q P past (call c f) k h ok = λ r allowed.
      Under-then_with F Q P (past ++ record { command = c; reply = r } ∷ []) (f r) k (h r allowed)
        ok

  -- Each request meets `Q` and the answer meets `P`, whatever the replies are.
  abbrev pub Uses : {A : Type 0} → (C → Type 0) → (A → Type 0) → Flow C R A → Type 0
  Uses Q P (answer a) = P a
  Uses Q P (call c k) = Q c × ((r : R c) → Uses Q P (k r))

  pub Uses-then_with :
      {A B : Type 0} (Q : C → Type 0) (P : A → Type 0) (P' : B → Type 0) (m : Flow C R A)
      (k : A → Flow C R B)
      → Uses Q P m
      → ((a : A) → P a → Uses Q P' (k a))
      → Uses Q P' (then_with m k)
  Uses-then_with Q P P' (answer a) k h ok = ok a h
  Uses-then_with Q P P' (call c f) k (q, h) ok = (q, λ r. Uses-then_with Q P P' (f r) k (h r) ok)
