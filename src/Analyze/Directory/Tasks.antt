-- ===== src/Analyze/Directory/Tasks.antt =====
-- The tasks of the thread pool of full_manifest_from_directory (src/analyze_fs.c) run in any order.
use mathlib.Core.List.{Perm, Permᴰ}
use mathlib.Core.Logic.{∥∥₁_elim}
use swupd_server.Prelude.{
  ℕ, ◌≡◌, refl, sym, ap, ◌∙◌, List, [], ◌∷◌, Option, none, some, Bool, true, false, ◌==◌,
  if◌then◌else◌, ◌>>=◌, Bool-cases, inl, inr, ==_iff,
}
use swupd_server.Text.{Text}
use swupd_server.File.{File, UpdateStat}
use swupd_server.Analyze.{
  FileSystem, get_hash, compute_hash, populate_file_struct, populated, typed, hash_content, based,
  compute_hash_with_xattrs, s_islnk, s_isdir,
}
use swupd_server.Analyze.Directory.{run_task, run_tasks}

files_set : IsSet (Option (List File))
files_set = hlevel

-- A result, if there is one, has an address.
abbrev AtAddr : ℕ → Option File → Type 0
AtAddr a none = Unit
AtAddr a (some f) = f.addr ≡ a

cast_AtAddr : {a b : ℕ} (o : Option File) → a ≡ b → AtAddr a o → AtAddr b o
cast_AtAddr none e h = tt
cast_AtAddr (some f) e h = h ∙ e

if_AtAddr :
    (a : ℕ) (b c d : Bool) (x y z w : Option File)
    → AtAddr a x
    → AtAddr a y
    → AtAddr a z
    → AtAddr a w
    → AtAddr a (if b then x else if c then y else if d then z else w)
if_AtAddr a true c d x y z w h i j k = h
if_AtAddr a false true d x y z w h i j k = i
if_AtAddr a false false true x y z w h i j k = j
if_AtAddr a false false false x y z w h i j k = k

module _ (fs : FileSystem) where
  content_AtAddr :
      (f : File) (path : Text) (o : Option Text) → AtAddr f.addr (hash_content fs f path o)
  content_AtAddr f path none = tt
  content_AtAddr f path (some content) = refl

  compute_AtAddr : (f : File) (path : Text) → AtAddr f.addr (compute_hash fs f path)
  unfolding compute_hash
  compute_AtAddr f path =
      if_AtAddr f.addr f.is_deleted f.is_link f.is_dir _ _ _ _ refl (content_AtAddr f path _) refl
        (content_AtAddr f path _)

  populated_addr : (o : Option UpdateStat) (f : File) → (populated o f).addr ≡ f.addr
  populated_addr none f = if_addr f.is_boot
    where
      if_addr :
          (b : Bool)
          → (if b then record f { is_ghosted = true } else record f { is_deleted = true }).addr
            ≡ f.addr
      if_addr true = refl
      if_addr false = refl
  populated_addr (some stat) f = typed_addr (s_islnk stat.st_mode) (s_isdir stat.st_mode)
    where
      typed_addr : (l d : Bool) → (typed l d stat f).addr ≡ f.addr
      typed_addr true d = refl
      typed_addr false true = refl
      typed_addr false false = refl

  hash_AtAddr : (base : Option Text) (f : File) → AtAddr f.addr (get_hash fs base f)
  unfolding get_hash populate_file_struct
  hash_AtAddr base f =
      let path : Text = based base f.filename in
      let f' : File = record f { use_xattrs = compute_hash_with_xattrs path } in
      cast_AtAddr (compute_hash fs (populated (fs.lstat path) f') path)
        (populated_addr (fs.lstat path) f') (compute_AtAddr (populated (fs.lstat path) f') path)

  module _ (base : Option Text) where
    pub run_hit :
        (a : ℕ) (f : File) (l : List File)
        → (f.addr == a) ≡ true
        → run_task fs base a (f ∷ l) ≡ (get_hash fs base f >>= λ f'. some (f' ∷ l))
    unfolding run_task
    run_hit a f l h = rw h refl

    pub run_miss :
        (a : ℕ) (f : File) (l : List File)
        → (f.addr == a) ≡ false
        → run_task fs base a (f ∷ l) ≡ (run_task fs base a l >>= λ l'. some (f ∷ l'))
    unfolding run_task
    run_miss a f l h = rw h refl

    -- Where a task finds its file at the head and the other does not.
    swap_hit :
        (a b : ℕ) (f : File) (l : List File)
        → (f.addr == a) ≡ true
        → (f.addr == b) ≡ false
        → (o : Option File) → get_hash fs base f ≡ o
        → AtAddr f.addr o
        → (o' : Option (List File)) → run_task fs base b l ≡ o'
        → ((o >>= λ f'. some (f' ∷ l)) >>= run_task fs base b)
          ≡ ((o' >>= λ l'. some (f ∷ l')) >>= run_task fs base a)
    swap_hit a b f l h k none e at none e' = refl
    swap_hit a b f l h k none e at (some l') e' =
        sym (run_hit a f l' h ∙ ap (λ o. o >>= λ f'. some (f' ∷ l')) e)
    swap_hit a b f l h k (some f') e at none e' =
        run_miss b f' l (rw at k) ∙ ap (λ o. o >>= λ l'. some (f' ∷ l')) e'
    swap_hit a b f l h k (some f') e at (some l') e' =
        run_miss b f' l (rw at k)
        ∙ ap (λ o. o >>= λ l'. some (f' ∷ l')) e'
        ∙ sym (run_hit a f l' h ∙ ap (λ o. o >>= λ f'. some (f' ∷ l')) e)

    -- Two tasks one after the other.
    abbrev both : ℕ → ℕ → List File → Option (List File)
    both a b l = run_task fs base a l >>= run_task fs base b

    both_hit :
        (a b : ℕ) (f : File) (l : List File)
        → (f.addr == a) ≡ true
        → (f.addr == b) ≡ false
        → both a b (f ∷ l) ≡ both b a (f ∷ l)
    both_hit a b f l h k =
        ap (λ o. o >>= run_task fs base b) (run_hit a f l h)
        ∙ swap_hit a b f l h k (get_hash fs base f) refl (hash_AtAddr base f) (run_task fs base b l)
            refl
        ∙ sym (ap (λ o. o >>= run_task fs base a) (run_miss b f l k))

    both_miss :
        (a b : ℕ) (f : File) (l : List File)
        → (f.addr == a) ≡ false
        → (f.addr == b) ≡ false
        → both a b (f ∷ l) ≡ (both a b l >>= λ l'. some (f ∷ l'))
    both_miss a b f l h k =
        ap (λ o. o >>= run_task fs base b) (run_miss a f l h) ∙ push (run_task fs base a l)
      where
        push :
            (o : Option (List File))
            → ((o >>= λ l'. some (f ∷ l')) >>= run_task fs base b)
              ≡ ((o >>= run_task fs base b) >>= λ l'. some (f ∷ l'))
        push none = refl
        push (some l') = run_miss b f l' k

    both_comm : (a b : ℕ) (l : List File) → both a b l ≡ both b a l
    unfolding run_task
    both_comm a b [] = refl
    both_comm a b (f ∷ l) = elim (Bool-cases (f.addr == a)) [
      | inl h ↦ elim (Bool-cases (f.addr == b)) [
        | inl k ↦
            let same : a ≡ b = sym ((==_iff f.addr a).0 h) ∙ (==_iff f.addr b).0 k in
            ap (λ c. both c b (f ∷ l)) same ∙ sym (ap (λ c. both b c (f ∷ l)) same)
        | inr k ↦ both_hit a b f l h k
      ]
      | inr h ↦ elim (Bool-cases (f.addr == b)) [
        | inl k ↦ sym (both_hit b a f l k h)
        | inr k ↦
            both_miss a b f l h k
            ∙ ap (λ o. o >>= λ l'. some (f ∷ l')) (both_comm a b l)
            ∙ sym (both_miss b a f l k h)
      ]
    ]

    bind_assoc :
        (o : Option (List File)) (g h : List File → Option (List File))
        → ((o >>= g) >>= h) ≡ (o >>= λ l. g l >>= h)
    bind_assoc none g h = refl
    bind_assoc (some l) g h = refl

    bind_same :
        (o : Option (List File)) (g h : List File → Option (List File))
        → ((l : List File) → g l ≡ h l)
        → (o >>= g) ≡ (o >>= h)
    bind_same none g h e = refl
    bind_same (some l) g h e = e l

    tasks_permᴰ :
        {t u : List ℕ} → Permᴰ t u → (l : List File) → run_tasks fs base t l ≡ run_tasks fs base u l
    unfolding run_tasks
    tasks_permᴰ Permᴰ.nil l = refl
    tasks_permᴰ (Permᴰ.cons {b = b} e p) l =
        rw e (bind_same (run_task fs base b l) _ _ (λ l'. tasks_permᴰ p l'))
    tasks_permᴰ (Permᴰ.swap {a' = a'} {b' = b'} {l = r} e f) l =
        rw (e, f)
          (sym (bind_assoc (run_task fs base b' l) (run_task fs base a') (run_tasks fs base r))
            ∙ ap (λ o. o >>= run_tasks fs base r) (both_comm b' a' l)
            ∙ bind_assoc (run_task fs base a' l) (run_task fs base b') (run_tasks fs base r))
    tasks_permᴰ (Permᴰ.trans p q) l = tasks_permᴰ p l ∙ tasks_permᴰ q l

    -- The tasks do the same in whatever order they run, and fail together.
    pub run_tasks-perm :
        {t u : List ℕ} → Perm t u → (l : List File) → run_tasks fs base t l ≡ run_tasks fs base u l
    run_tasks-perm p l = ∥∥₁_elim p (files_set _ _) (λ q. tasks_permᴰ q l)
