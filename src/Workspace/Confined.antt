-- ===== src/Workspace/Confined.antt =====
-- What `apply` changes on the disk.
use hermes_agentic_variation.Base.{
  String, Bool, true, false, not, ◌&&◌, ◌||◌, List, [], ◌∷◌, Option, none, some, str_eq, ◌≡◌, refl,
  sym, ap, ◌∙◌, inl, inr, Bool-cases, if◌then◌else◌,
}
use hermes_agentic_variation.Base.Result
use hermes_agentic_variation.Base.Result.{
  Result, workspace_violation, ok, err, ok-injective, raise_if-ok,
}
use hermes_agentic_variation.Effect.{pure, ◌>>◌, continue-ok, lift-ok, pure-ok}
use hermes_agentic_variation.Patch.Lines.{append}
use hermes_agentic_variation.Workspace.Files.{FileSystem, is_name, View, IsLawful}
use hermes_agentic_variation.Workspace.Methods.{
  Workspace, allowed_files, allowed_path, allowed_paths, write_trusted, validate_repo,
  mutation_source, apply_source, apply,
}

or-false : (a b : Bool) → (a || b) ≡ false → (a ≡ false) × (b ≡ false)
or-false false false h = (refl, refl)
or-false true b h = cc
or-false false true h = cc

not-false : (b : Bool) → not b ≡ false → b ≡ true
not-false true h = refl
not-false false h = cc

module _ (F : FileSystem) where
  -- An allowed path is its own name in the repository, and no link.
  allowed_path-ok :
      (repo : F.Location) (relative : String) (d : F.Disk) (p : F.Location)
      → allowed_path F repo relative d ≡ ok p
      → (F.is_link (F.join repo relative) d ≡ false) × (F.join repo relative ≡ p)
  unfolding allowed_path
  allowed_path-ok repo relative d p e =
      from (F.is_link (F.join repo relative) d)
        (F.same (F.parent (F.resolve (F.join repo relative) d)) repo) e
    where
      from :
          (link same : Bool)
          → (if link || not same
              then err (workspace_violation "fixture file escaped the repository")
              else ok (F.join repo relative))
            ≡ ok p
          → (link ≡ false) × (F.join repo relative ≡ p)
      from false true q = (refl, ok-injective (F.join repo relative) p q)
      from false false q = cc
      from true same q = cc

  -- A repository that is accepted resolves into the root, has a git directory, and its name is no link.
  pub validate_repo-ok :
      (w : Workspace F) (repo : F.Location) (d : F.Disk) (resolved : F.Location)
      → validate_repo F w repo d ≡ ok resolved
      → (F.is_link repo d ≡ false)
        × (F.resolve repo d ≡ resolved)
        × (F.same (F.parent resolved) w.root ≡ true)
        × (F.is_dir (F.join resolved ".git") d ≡ true)
  unfolding validate_repo
  validate_repo-ok w repo d resolved e =
      from (F.is_link repo d) (F.same (F.parent (F.resolve repo d)) w.root)
        (F.is_dir (F.join (F.resolve repo d) ".git") d)
        (allowed_paths F (F.resolve repo d) allowed_files d) refl refl refl e
    where
      from :
          (link inside git : Bool) (paths : Result (Unit {0}))
          → F.is_link repo d ≡ link
          → F.same (F.parent (F.resolve repo d)) w.root ≡ inside
          → F.is_dir (F.join (F.resolve repo d) ".git") d ≡ git
          → (if link
              then err (workspace_violation "repository must not be a symlink")
              else if not inside || not git
              then err (workspace_violation "repository is outside the Phase 3 root")
              else elim paths [ ok u ↦ ok (F.resolve repo d) | err x ↦ err x ])
            ≡ ok resolved
          → (F.is_link repo d ≡ false)
            × (F.resolve repo d ≡ resolved)
            × (F.same (F.parent resolved) w.root ≡ true)
            × (F.is_dir (F.join resolved ".git") d ≡ true)
      from false true true (ok u) l i g q =
          let same : F.resolve repo d ≡ resolved = ok-injective (F.resolve repo d) resolved q in
          (
            l,
            same,
            ap (λ x. F.same (F.parent x) w.root) (sym same) ∙ i,
            ap (λ x. F.is_dir (F.join x ".git") d) (sym same) ∙ g,
          )
      from false true true (err x) l i g q = cc
      from false true false paths l i g q = cc
      from false false git paths l i g q = cc
      from true inside git paths l i g q = cc

  module _ (V : View F) where
    -- What an applied mutation leaves: a baseline changes nothing, another source is what the one
    -- file that is told as changed holds, and every path that leads elsewhere has what it had.
    pub record Patched (repo : F.Location) (mutation : String) (changed : List String)
        (d after : F.Disk) : Type 0 where
      pub source : String
      pub known : mutation_source mutation ≡ some source
      pub told : changed ≡ (if str_eq mutation "baseline" then [] else "calculator.py" ∷ [])
      pub contents :
          (q : F.Location)
          → V.content q after ≡ (
              if not (str_eq mutation "baseline") && V.leads q (F.join repo "calculator.py") d
              then some (F.utf8 source)
              else V.content q d)

  module _ (V : View F) (lawful : IsLawful F V) where
    -- The file has the new content, and every other file what it had.
    write_trusted-Replaces :
        (repo : F.Location) (relative content : String) (d after : F.Disk) (u : Unit {0})
        → is_name relative ≡ true
        → is_name (append "." (append relative ".phase3-new")) ≡ true
        → str_eq relative (append "." (append relative ".phase3-new")) ≡ false
        → write_trusted F repo relative content d ≡ (ok u, after)
        → (q : F.Location)
        → V.content q after
          ≡ (if V.leads q (F.join repo relative) d then some (F.utf8 content) else V.content q d)
    unfolding write_trusted
    write_trusted-Replaces repo relative content d after u named named_new distinct e q =
        let name : String = append "." (append relative ".phase3-new") in
        let temporary : F.Location = F.join repo name in
        let target : F.Location = F.join repo relative in
        let (path, allowed, e1) = lift-ok (allowed_path F repo relative d) _ d e in
        let (no_link, path_is) = allowed_path-ok repo relative d path allowed in
        let (_, clean, e2) =
          lift-ok
            (Result.raise_if (F.exists temporary d || F.is_link temporary d)
              (workspace_violation "temporary mutation path is not clean"))
            _ d e1 in
        let (absent, unlinked) =
          or-false (F.exists temporary d) (F.is_link temporary d)
            (raise_if-ok (F.exists temporary d || F.is_link temporary d) _ clean) in
        let (tt, d1, written, e3) = continue-ok (F.write_text temporary content d) _ e2 in
        let made = lawful.created temporary content d d1 absent unlinked written in
        let own = lawful.leads-own repo name d named_new unlinked in
        let apart = lawful.leads-other repo relative name d named named_new distinct no_link in
        let new_content =
          made.contents temporary
          ∙ ap (λ b. if b then some (F.utf8 content) else V.content temporary d) own in
        let moved =
          lawful.replaced temporary target q d1 after (F.utf8 content) new_content made.one_link
            (made.same_links temporary ∙ unlinked) (made.same_links target ∙ no_link)
            (made.same_leads target temporary ∙ apart)
            (ap (λ x. F.replace temporary x d1) path_is ∙ e3) in
        moved
        ∙ put temporary d1 made.was_absent unlinked (made.same_leads q target)
            (made.same_leads q temporary) (made.contents q)
      where
        put :
            (temporary : F.Location) (d1 : F.Disk)
            → V.content temporary d ≡ none
            → F.is_link temporary d ≡ false
            → V.leads q (F.join repo relative) d1 ≡ V.leads q (F.join repo relative) d
            → V.leads q temporary d1 ≡ V.leads q temporary d
            → V.content q d1
              ≡ (if V.leads q temporary d then some (F.utf8 content) else V.content q d)
            → (if V.leads q (F.join repo relative) d1
                then some (F.utf8 content)
                else if V.leads q temporary d1
                then none
                else V.content q d1)
              ≡ (if V.leads q (F.join repo relative) d
                  then some (F.utf8 content)
                  else V.content q d)
        put temporary d1 absent unlinked l m s = elim (Bool-cases (V.leads q temporary d)) [
          | inl k ↦
              let none_there = lawful.leads-content q temporary d unlinked k ∙ absent in
              rw (l, m, k, none_there) refl
          | inr k ↦ rw (l, m, k, s, k) refl
        ]

    apply_source-Patched :
        (w : Workspace F) (repo : F.Location) (mutation : String) (d after : F.Disk)
        (changed : List String)
        → apply_source F w repo mutation (mutation_source mutation) d ≡ (ok changed, after)
        → Patched V repo mutation changed d after
    unfolding apply_source append
    apply_source-Patched w repo mutation d after changed e =
        from (mutation_source mutation) (str_eq mutation "baseline") refl refl e
      where
        branch : String → Bool → Result (List String) × F.Disk
        branch source same =
            (if same
                then pure []
                else (write_trusted F repo "calculator.py" source >> pure ("calculator.py" ∷ [])))
              d

        from :
            (source : Option String) (same : Bool)
            → mutation_source mutation ≡ source
            → str_eq mutation "baseline" ≡ same
            → apply_source F w repo mutation source d ≡ (ok changed, after)
            → Patched V repo mutation changed d after
        from none same k b q = cc
        from (some source) true k b q =
            let (told, same) =
              pure-ok {A = List String} [] changed d after (sym (ap (branch source) b) ∙ q) in
            record {
              source = source;
              known = k;
              told = rw b (sym told);
              contents = λ x. rw (b, sym same) refl;
            }
        from (some source) false k b q =
            let (u, d1, written, e1) =
              continue-ok (write_trusted F repo "calculator.py" source d) _
                (sym (ap (branch source) b) ∙ q) in
            let (told, same) =
              pure-ok {A = List String} ("calculator.py" ∷ []) changed d1 after e1 in
            record {
              source = source;
              known = k;
              told = rw b (sym told);
              contents = λ x.
                  rw (b, sym same)
                    (write_trusted-Replaces repo "calculator.py" source d d1 u refl refl refl
                      written x);
            }

    -- If `apply` answers, then the repository's name is no link, it resolves into the root and has a git directory, and the mutation is one of the three. It tells that calculator.py was changed, unless the mutation is baseline, where it tells of no change. Every path then leads to the bytes that it led to before, except for those that lead to calculator.py in the repository, which has the mutation's source unless it is baseline. Assumed are the laws of the file system, which `IsLawful` lists.
    pub apply-Patched :
        (w : Workspace F) (repo : F.Location) (mutation : String) (d after : F.Disk)
        (changed : List String)
        → apply F w repo mutation d ≡ (ok changed, after)
        → (F.is_link repo d ≡ false)
          × (F.same (F.parent (F.resolve repo d)) w.root ≡ true)
          × (F.is_dir (F.join (F.resolve repo d) ".git") d ≡ true)
          × Patched V (F.resolve repo d) mutation changed d after
    unfolding apply
    apply-Patched w repo mutation d after changed e =
        let (resolved, valid, e1) = lift-ok (validate_repo F w repo d) _ d e in
        let (no_link, same, inside, git) = validate_repo-ok w repo d resolved valid in
        rw same (no_link, inside, git, apply_source-Patched w resolved mutation d after changed e1)
