-- ===== src/Storage/Interleaving.antt =====
-- Requests that run at the same time: between two calls of one, any others may make theirs.
use web_cloud_disk.Base.{subst, ◌≡◌, refl, ◌≢◌, Bytes}
use web_cloud_disk.Flow.{Flow, answer, call}
use web_cloud_disk.Backend.{Request, Reply, mysql}
use web_cloud_disk.Storage.Disk.{Files, Effect, Safe}

-- The requests are told apart by their indices in `I`.
abbrev pub Flows : Type 0 → Type 0 → Type 0
Flows I A = I → Flow Request Reply A

abbrev pub update : {I A : Type 0} → Discrete I → Flows I A → I → Flow Request Reply A → Flows I A
update same_index flows i m j = elim (same_index i j) [ yes _ ↦ m | no _ ↦ flows j ]

pub record System (I A : Type 0) : Type 0 where
  pub files : Files
  pub flows : Flows I A

-- `drawn i` are the random bytes that request `i` draws; `env` is what else may happen to the files.
module _ {I A : Type 0} (same_index : Discrete I) (drawn : I → Bytes)
    (env : Files → Files → Type 0) where
  pub data Step (s : System I A) : System I A → Type 0 where
    -- one request makes its next call
    pick :
        (i : I) (c : Request) (k : Reply c → Flow Request Reply A) (r : Reply c) (f : Files)
        → s.flows i ≡ call c k
        → Effect (drawn i) s.files c r f
        → Step s (record { files = f; flows = update same_index s.flows i (k r) })
    -- something else changes the files
    outside : (f : Files) → env s.files f → Step s (record { files = f; flows = s.flows })

  pub data Reach (s : System I A) : System I A → Type 0 where
    start : Reach s s
    later : {t u : System I A} → Reach s t → Step t u → Reach s u

  module _ (rely guar : I → Files → Files → Type 0) (at : I → Files → Bytes → Type 0)
      (P : I → Files → A → Type 0) (same : (i : I) (f : Files) → rely i f f)
      (follow : (i : I) (f g h : Files) → rely i f g → rely i g h → rely i f h)
      (compatible : (i j : I) (f g : Files) → i ≢ j → guar i f g → rely j f g)
      (granted : (i : I) (f g : Files) → env f g → rely i f g) where
    -- A request is on its track when it was safe from files on since when the others have kept to what it
    -- relies on.
    abbrev pub Tracks : I → Files → Flow Request Reply A → Type 0
    Tracks i f m = (f₀ : Files) × rely i f₀ f × Safe (drawn i) (rely i) (guar i) (at i) (P i) f₀ m

    abbrev pub AllTrack : System I A → Type 0
    AllTrack s = (i : I) → Tracks i s.files (s.flows i)

    picked :
        (i : I) (s : System I A) (c : Request) (k : Reply c → Flow Request Reply A) (r : Reply c)
        (f : Files)
        → s.flows i ≡ call c k
        → Effect (drawn i) s.files c r f
        → Tracks i s.files (s.flows i)
        → guar i s.files f × Safe (drawn i) (rely i) (guar i) (at i) (P i) f (k r)
    picked i s c k r f e eff (f₀, kept, safe) =
        let from =
          subst (λ (m : Flow Request Reply A). Safe (drawn i) (rely i) (guar i) (at i) (P i) f₀ m) e
            safe in
        let (a, g, rest) = from s.files kept r f eff in (g, rest)

    updated :
        (i j : I) (f f' : Files) (m n : Flow Request Reply A) (d : Dec (i ≡ j))
        → guar i f f'
        → Safe (drawn i) (rely i) (guar i) (at i) (P i) f' n
        → Tracks j f m
        → Tracks j f' (elim d [ yes _ ↦ n | no _ ↦ m ])
    updated i j f f' m n (yes e) g rest t = subst (λ (k : I). Tracks k f' n) e (f', same i f', rest)
    updated i j f f' m n (no ne) g rest (f₀, kept, safe) =
        (f₀, follow j f₀ f f' kept (compatible i j f f' ne g), safe)

    Step-AllTrack : {s t : System I A} → Step s t → AllTrack s → AllTrack t
    Step-AllTrack {s} (pick i c k r f e eff) t j =
        let (g, rest) = picked i s c k r f e eff (t i) in
        updated i j s.files f (s.flows j) (k r) (same_index i j) g rest (t j)
    Step-AllTrack (outside f h) t j =
        let (f₀, kept, safe) = t j in (f₀, follow j f₀ _ f kept (granted j _ f h), safe)

    -- Requests that are all safe at the start are on their tracks at every later time.
    pub Reach-AllTrack : {s t : System I A} → Reach s t → AllTrack s → AllTrack t
    Reach-AllTrack start t = t
    Reach-AllTrack (later r st) t = Step-AllTrack st (Reach-AllTrack r t)

    -- A request that has ended met its goal then, and the others have left to it what it relies on since.
    pub Reach-answer :
        {s t : System I A} (i : I) (a : A)
        → Reach s t
        → AllTrack s
        → t.flows i ≡ answer a
        → (f₀ : Files) × rely i f₀ t.files × P i f₀ a
    Reach-answer {t} i a r track e =
        let (f₀, kept, safe) = Reach-AllTrack r track i in
        (
          f₀,
          kept,
          subst (λ (m : Flow Request Reply A). Safe (drawn i) (rely i) (guar i) (at i) (P i) f₀ m) e
              safe,
        )

    -- What every request guarantees and everything else keeps holds from the start to every later time.
    pub Reach-kept :
        (All : Files → Files → Type 0)
        → ((f : Files) → All f f)
        → ((f g h : Files) → All f g → All g h → All f h)
        → ((i : I) (f g : Files) → guar i f g → All f g)
        → ((f g : Files) → env f g → All f g)
        → {s t : System I A} → Reach s t
        → AllTrack s
        → All s.files t.files
    Reach-kept All none_yet both mine others {s} start track = none_yet s.files
    Reach-kept All none_yet both mine others {s} (later {t} r (pick i c k q f e eff)) track =
        both s.files t.files f (Reach-kept All none_yet both mine others r track)
          (mine i t.files f (picked i t c k q f e eff (Reach-AllTrack r track i)).0)
    Reach-kept All none_yet both mine others {s} (later {t} r (outside f h)) track =
        both s.files t.files f (Reach-kept All none_yet both mine others r track)
          (others t.files f h)

    -- A query that is about to be sent is sent where `at` holds.
    pub Reach-query :
        {s t : System I A} (i : I) (sql : Bytes) (k : Reply (mysql sql) → Flow Request Reply A)
        → Reach s t
        → AllTrack s
        → Reply (mysql sql)
        → t.flows i ≡ call (mysql sql) k
        → at i t.files sql
    Reach-query {t} i sql k r track reply e =
        let (f₀, kept, safe) = Reach-AllTrack r track i in
        (subst (λ (m : Flow Request Reply A). Safe (drawn i) (rely i) (guar i) (at i) (P i) f₀ m) e
          safe t.files kept reply t.files refl).0

pub Reach-both :
    {I A : Type 0} (same_index : Discrete I) (drawn : I → Bytes) (env : Files → Files → Type 0)
    {s t u : System I A}
    → Reach same_index drawn env s t
    → Reach same_index drawn env t u
    → Reach same_index drawn env s u
Reach-both same_index drawn env r start = r
Reach-both same_index drawn env r (later q st) = later (Reach-both same_index drawn env r q) st

-- A run among fewer changes from outside is one among more.
pub Reach-weaken :
    {I A : Type 0} (same_index : Discrete I) (drawn : I → Bytes) (env env' : Files → Files → Type 0)
    → ((f g : Files) → env f g → env' f g)
    → {s t : System I A} → Reach same_index drawn env s t
    → Reach same_index drawn env' s t
Reach-weaken same_index drawn env env' more start = start
Reach-weaken same_index drawn env env' more (later r (pick i c k q f e eff)) =
    later (Reach-weaken same_index drawn env env' more r) (pick i c k q f e eff)
Reach-weaken same_index drawn env env' more (later {t} r (outside f h)) =
    later (Reach-weaken same_index drawn env env' more r) (outside f (more t.files f h))
