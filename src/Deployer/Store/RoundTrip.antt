-- ===== src/Deployer/Store/RoundTrip.antt =====
-- internal/deployer/state.go: a state that is saved is loaded again.
use workspaced.Prelude.{
  true, All-In, ◌↔◌, List, [], ◌∷◌, ◌++◌, Str, Option, some, none, str_lt, str_eq, str_eq_iff, ◌≡◌,
  ◌≢◌, refl, sym, ap, subst, arith, ◌∙◌, inl, inr, All, In, Bool-cases, Option-cases, str_eq_refl,
}
use workspaced.Prelude.Sort
use workspaced.Prelude.GoMap
use workspaced.Prelude.GoMap.{GoMap, get-put}
use workspaced.Env.{Env}
use workspaced.FilePath.{join_slash}
use workspaced.FilePath.Clean.{IsElement, absolute}
use workspaced.Deployer.Types.{State, ManagedInfo}
use workspaced.Deployer.Paths.{rel_to_root, abs_from_root}
use workspaced.Deployer.Paths.RoundTrip.{IsPlain, IsTrimmed, abs_from_root-rel_to_root}
use workspaced.Deployer.Store.{load_files, load, keys, save_keys, on_disk, save}
use workspaced.Taskgroup.Utf8.{is_text}
use workspaced.Deployer.Store.Texts.{
  IsTextEntry, AreDistinct, KeepsTexts, All-from, key-entry, entry-key, put-AreDistinct,
}

-- The path is below the root, and its relative part survives in the state file.
pub record IsBelow (ps : List Str) (path : Str) : Type 0 where
  pub first : Str
  pub rest : List Str
  pub elements : All IsElement (first ∷ rest)
  pub spelled : path ≡ absolute (ps ++ first ∷ rest)
  pub trimmed : IsTrimmed path
  pub plain : IsPlain (join_slash (first ∷ rest))
  pub text : is_text (join_slash (first ∷ rest)) ≡ true

In-keys : (state : State) (path : Str) → GoMap.get state path ≢ none → In path (keys state)
unfolding keys GoMap.get
In-keys [] path h = absurd (h refl)
In-keys ((k, info) ∷ state) path h = ground (arith, In-keys state path, str_eq_iff k path)

module _ (e : Env) (ps : List Str) (proper : All IsElement ps)
    (trimmed : IsTrimmed (absolute ps)) where
  abbrev root : Str
  root = absolute ps

  abs-rel : (path : Str) → IsBelow ps path → abs_from_root e (rel_to_root path root) root ≡ path
  abs-rel path h =
      rw h.spelled
        (abs_from_root-rel_to_root e ps h.first h.rest proper h.elements trimmed
          (subst IsTrimmed h.spelled h.trimmed) h.plain).1

  module _ (state : State) (below : (k : Str) → GoMap.get state k ≢ none → IsBelow ps k) where
    -- The entry of the file stands for one of the state.
    IsSound : Str × ManagedInfo → Type 0
    IsSound (r, info) = (k : Str) × (r ≡ rel_to_root k root) × (GoMap.get state k ≡ some info)

    abs_sound :
        (r : Str) (info : ManagedInfo)
        → (k : Str) → r ≡ rel_to_root k root
        → GoMap.get state k ≡ some info
        → abs_from_root e r root ≡ k
    abs_sound r info k q g = rw q (abs-rel k (below k (λ x. absurd (ground arith))))

    All-put :
        (disk : State) (r : Str) (info : ManagedInfo)
        → All IsSound disk
        → IsSound (r, info)
        → All IsSound (GoMap.put disk r info)
    unfolding GoMap.put
    All-put [] r info h x = (x, tt)
    All-put ((j, w) ∷ disk) r info (hj, h) x = elim (Bool-cases (str_eq j r)) [
      | inl q ↦ rw q (x, h)
      | inr q ↦ rw q (hj, All-put disk r info h x)
    ]

    save_none :
        (k : Str) (ks : List Str) (disk : State)
        → GoMap.get state k ≡ none
        → save_keys root state (k ∷ ks) disk ≡ save_keys root state ks disk
    unfolding save_keys
    save_none k ks disk q = rw (q, save_keys)

    save_some :
        (k : Str) (ks : List Str) (disk : State) (info : ManagedInfo)
        → GoMap.get state k ≡ some info
        → save_keys root state (k ∷ ks) disk
          ≡ save_keys root state ks (GoMap.put disk (rel_to_root k root) info)
    unfolding save_keys
    save_some k ks disk info q = rw (q, save_keys)

    save_keys-AreDistinct :
        (ks : List Str) (disk : State)
        → AreDistinct (keys disk)
        → AreDistinct (keys (save_keys root state ks disk))
    save_keys-AreDistinct [] disk h = unfold save_keys in h
    save_keys-AreDistinct (k ∷ ks) disk h = elim (Option-cases (GoMap.get state k)) [
      | inl q ↦ rw (save_none k ks disk q) (save_keys-AreDistinct ks disk h)
      | inr (info, q) ↦ rw (save_some k ks disk info q) (
          save_keys-AreDistinct ks (GoMap.put disk (rel_to_root k root) info)
            (put-AreDistinct (rel_to_root k root) info disk h))
    ]

    save_keys-IsSound :
        (ks : List Str) (disk : State)
        → All IsSound disk
        → All IsSound (save_keys root state ks disk)
    save_keys-IsSound [] disk h = unfold save_keys in h
    save_keys-IsSound (k ∷ ks) disk h = elim (Option-cases (GoMap.get state k)) [
      | inl q ↦ rw (save_none k ks disk q) (save_keys-IsSound ks disk h)
      | inr (info, q) ↦ rw (save_some k ks disk info q) (
          save_keys-IsSound ks (GoMap.put disk (rel_to_root k root) info)
            (All-put disk (rel_to_root k root) info h (unfold IsSound in (k, refl, q))))
    ]

    load_complete :
        (disk acc : State) (path : Str)
        → All IsSound disk
        → GoMap.get acc path ≡ GoMap.get state path
        → GoMap.get (load_files e root disk acc) path ≡ GoMap.get state path
    unfolding load_files IsSound
    load_complete [] acc path h g = g
    load_complete ((r, info) ∷ disk) acc path ((k, q, x), h) g =
        load_complete disk (GoMap.put acc (abs_from_root e r root) info) path h (
          rw (abs_sound r info k q x)
            (ground (arith, get-put acc k info path, str_eq_iff k path, g, x)))

    load_sound :
        (disk acc : State) (path : Str)
        → All IsSound disk
        → GoMap.get state path ≡ none
        → GoMap.get acc path ≡ none
        → GoMap.get (load_files e root disk acc) path ≡ none
    load_sound disk acc path h x g = load_complete disk acc path h (g ∙ sym x) ∙ x

    load-hits :
        (disk acc : State) (path : Str)
        → All IsSound disk
        → GoMap.get state path ≢ none
        → In (rel_to_root path root) (keys disk)
        → GoMap.get (load_files e root disk acc) path ≡ GoMap.get state path
    unfolding load_files keys IsSound
    load-hits [] acc path h ne m = elim m [ ]
    load-hits ((r, info) ∷ disk) acc path (hr, h) ne (inr m) =
        load-hits disk (GoMap.put acc (abs_from_root e r root) info) path h ne m
    load-hits ((r, info) ∷ disk) acc path ((k, q, x), h) ne (inl y) =
        let same : abs_from_root e r root ≡ path =
          ap (λ z. abs_from_root e z root) (sym y) ∙ abs-rel path (below path ne) in
        let key : k ≡ path = sym (abs_sound r info k q x) ∙ same in
        load_complete disk (GoMap.put acc (abs_from_root e r root) info) path h (
          rw same (
            ground
              (arith, get-put acc path info path, str_eq_refl path, x, ap (GoMap.get state) key)))

    In-put_self :
        (disk : State) (r : Str) (info : ManagedInfo) → In r (keys (GoMap.put disk r info))
    unfolding keys GoMap.put
    In-put_self [] r info = inl refl
    In-put_self ((j, w) ∷ disk) r info = ground (arith, In-put_self disk r info)

    In-put_keep :
        (disk : State) (r q : Str) (info : ManagedInfo)
        → In q (keys disk)
        → In q (keys (GoMap.put disk r info))
    unfolding keys GoMap.put
    In-put_keep [] r q info m = elim m [ ]
    In-put_keep ((j, w) ∷ disk) r q info m =
        ground (arith, In-put_keep disk r q info, str_eq_iff j r)

    save_keys-keeps :
        (ks : List Str) (disk : State) (q : Str)
        → In q (keys disk)
        → In q (keys (save_keys root state ks disk))
    save_keys-keeps [] disk q m = unfold save_keys in m
    save_keys-keeps (k ∷ ks) disk q m = elim (Option-cases (GoMap.get state k)) [
      | inl g ↦ rw (save_none k ks disk g) (save_keys-keeps ks disk q m)
      | inr (info, g) ↦ rw (save_some k ks disk info g) (
          save_keys-keeps ks (GoMap.put disk (rel_to_root k root) info) q
            (In-put_keep disk (rel_to_root k root) q info m))
    ]

    save_keys-hits :
        (ks : List Str) (disk : State) (path : Str)
        → In path ks
        → GoMap.get state path ≢ none
        → In (rel_to_root path root) (keys (save_keys root state ks disk))
    save_keys-hits [] disk path m ne = elim m [ ]
    save_keys-hits (k ∷ ks) disk path (inl y) ne = elim (Option-cases (GoMap.get state k)) [
      | inl g ↦ absurd (ne (ap (GoMap.get state) y ∙ g))
      | inr (info, g) ↦
          rw (save_some k ks disk info g, y)
            (save_keys-keeps ks (GoMap.put disk (rel_to_root k root) info) (rel_to_root k root)
              (In-put_self disk (rel_to_root k root) info))
    ]
    save_keys-hits (k ∷ ks) disk path (inr m) ne = elim (Option-cases (GoMap.get state k)) [
      | inl g ↦ rw (save_none k ks disk g) (save_keys-hits ks disk path m ne)
      | inr (info, g) ↦
          rw (save_some k ks disk info g)
            (save_keys-hits ks (GoMap.put disk (rel_to_root k root) info) path m ne)
    ]

    disk : State
    disk = on_disk root state

    disk-IsSound : All IsSound disk
    unfolding on_disk disk
    disk-IsSound = save_keys-IsSound (Sort.sort str_lt (keys state)) [] tt

    -- Any list of the entries of the file loads as the state.
    loaded_files :
        (n : State)
        → ((x : Str × ManagedInfo) → In x n ↔ In x disk)
        → (path : Str) → GoMap.get (load_files e root n []) path ≡ GoMap.get state path
    unfolding disk on_disk
    loaded_files n same path = go (GoMap.get state path) refl
      where
        sound : All IsSound n
        sound = All-from IsSound n (λ x m. All-In IsSound x disk disk-IsSound ((same x).0 m))

        go :
            (o : Option ManagedInfo)
            → GoMap.get state path ≡ o
            → GoMap.get (load_files e root n []) path ≡ GoMap.get state path
        go none q = load_sound n [] path sound q (unfold GoMap.get in refl) ∙ sym q
        go (some info) q =
            let hit : In (rel_to_root path root) (keys disk) =
              save_keys-hits (Sort.sort str_lt (keys state)) [] path
                (Sort.In-sort_of str_lt path (keys state)
                  (In-keys state path (λ x. absurd (ground arith))))
                (λ x. absurd (ground arith)) in
            let (i, m) = key-entry (rel_to_root path root) disk hit in
            load-hits n [] path sound (λ x. absurd (ground arith))
              (entry-key (rel_to_root path root) i n ((same (rel_to_root path root, i)).1 m))

    -- The keys and the infos of the file are texts.
    module _
        (texts : (k : Str) (info : ManagedInfo)
          → GoMap.get state k ≡ some info
          → is_text info.source_info ≡ true) where
      sound-IsText : (x : Str × ManagedInfo) → IsSound x → IsTextEntry x
      unfolding IsSound
      sound-IsText (r, info) (k, q, g) =
          let h = below k (λ x. absurd (ground arith)) in
          (
            subst (λ r. is_text r ≡ true)
                (sym (
                  q
                  ∙ ap (λ p. rel_to_root p root) h.spelled
                  ∙ (abs_from_root-rel_to_root e ps h.first h.rest proper h.elements trimmed
                      (subst IsTrimmed h.spelled h.trimmed) h.plain).0))
                h.text,
            texts k info g,
          )

      disk-IsText : All IsTextEntry disk
      disk-IsText =
          All-from IsTextEntry disk (λ x m. sound-IsText x (All-In IsSound x disk disk-IsSound m))

      disk-AreDistinct : AreDistinct (keys disk)
      unfolding disk on_disk
      disk-AreDistinct =
          save_keys-AreDistinct (Sort.sort str_lt (keys state)) [] (unfold keys in tt)

-- The state store keeps the state: for a root that is an absolute clean path, and a state whose
-- targets lie below it with names that expansion leaves alone, what Save writes is loaded with the
-- same entry at every path. The names and the infos are valid UTF-8, without which JSON would change them, and JSON
-- keeps the entries of a map of such texts.
pub load-save :
    (marshal : State → Str) (unmarshal : Str → Option (Option State)) (e : Env) (ps : List Str)
    (state : State)
    → KeepsTexts marshal unmarshal
    → All IsElement ps
    → IsTrimmed (absolute ps)
    → ((k : Str) → GoMap.get state k ≢ none → IsBelow ps k)
    → ((k : Str) (info : ManagedInfo)
        → GoMap.get state k ≡ some info
        → is_text info.source_info ≡ true)
    → (after : State) × (load unmarshal e (absolute ps) (some (save marshal (absolute ps) state))
        ≡ some after)
      × ((path : Str) → GoMap.get after path ≡ GoMap.get state path)
unfolding load save
load-save marshal unmarshal e ps state json proper trimmed below texts =
    let (n, q, same) =
      json (on_disk (absolute ps) state)
        (unfold disk in disk-IsText e ps proper trimmed state below texts)
        (unfold disk in disk-AreDistinct e ps proper trimmed state below texts) in
    (
      load_files e (absolute ps) n [],
      rw (q, load) refl,
      λ path. loaded_files e ps proper trimmed state below n (unfold disk in same) path,
    )
