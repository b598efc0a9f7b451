-- ===== src/Context/Operations/Safety.antt =====
-- What the operations promise of the store: a value that was set is read, other paths keep theirs, and an
-- operation that throws has changed nothing.
use open_dynamic_workflow.Base.{
  ℕ_eq, List_eq, ◌≡◌, refl, sym, ap, ◌∙◌, Bool, true, Option, some, List, ◌∷◌, Text, Result, ok,
  err, ◌>>=◌, if_intro,
}
use open_dynamic_workflow.Context.Json.Laws.{check_and_clone-embed}
use open_dynamic_workflow.Context.Json.{embed, Json, Fields, JsValue}
use open_dynamic_workflow.Context.Operations.Objects.{put, drop, Read}
use open_dynamic_workflow.Context.Operations.{
  ContextOperation, ContextError, clone_json_value, traverse, write_at, last, read_last, is_absent,
  value_of, context_get, context_set, context_delete, context_merge, context_append, got, after,
  merge_into, merge_entries, append_to, check_target, takes_entries, takes_items,
}
use open_dynamic_workflow.Context.Operations.Laws.{
  read-put_same, read-put_other, look, look_lem, traverse-write_at,
}
use open_dynamic_workflow.Context.Operations.Updates.{
  Update, sets, merges, appends, deletes, done, update, read-drop_other, merge_into-local,
  append_to-local, merge_into-err, append_to-err, read-end,
}
use open_dynamic_workflow.Context.Operations.Frame.{diverges, IsPlain, look-write_at, write_at-err}

done_err :
    {A : Type 0} (m : Fields × Result ContextError A) (s : Fields) (e : ContextError)
    → (m.1 ≡ err e → m.0 ≡ s)
    → (done m).1 ≡ err e
    → (done m).0 ≡ s
done_err (t, ok x) s e go h = cc
done_err (t, err e') s e go h = go cc

done_store : {A : Type 0} (m : Fields × Result ContextError A) → (done m).0 ≡ m.0
done_store (t, ok x) = refl
done_store (t, err e) = refl

module _ {A B : Type 0} (next : A → Fields × Result ContextError B) (s : Fields) where
  after_err :
      (m : Result ContextError A) (e : ContextError)
      → ((x : A) → (next x).1 ≡ err e → (next x).0 ≡ s)
      → (after m s next).1 ≡ err e
      → (after m s next).0 ≡ s
  after_err (ok x) e go h = go x h
  after_err (err e') e go h = refl

  after_keeps :
      (P : Fields → Type 0) (m : Result ContextError A)
      → P s
      → ((x : A) → P (next x).0)
      → P (after m s next).0
  after_keeps P (ok x) here go = go x
  after_keeps P (err e) here go = here

module _ (op : ContextOperation) (path : Text) (key : Text) (rest : List Text) where
  -- An operation that throws on a path none of whose segments is an inherited name leaves the store as
  -- it was.
  pub update-err :
      (u : Update) (s : Fields) (e : ContextError)
      → IsPlain (key ∷ rest)
      → (update u op path (key ∷ rest) s).1 ≡ err e
      → (update u op path (key ∷ rest) s).0 ≡ s
  unfolding update context_set context_merge context_append context_delete merge_into append_to
  update-err (sets v) s e p h =
      after_err _ s (clone_json_value v) e
        (λ x.
          write_at-err op path op path (λ k q. (put k x q, ok tt)) (λ k q e t. cc)
            (λ k q. (tt, refl)) key rest s e p)
        h
  update-err (merges v) s e p h =
      after_err _ s (merge_entries op path v) e
        (λ x. after_err _ s (check_target op path (key ∷ rest) takes_entries s) e (λ fits.
          write_at-err op path op path (merge_into op path x) (merge_into-err op path x)
            (λ k q. (tt, rw (read-end op path k q) refl)) key rest s e p))
        h
  update-err (appends v) s e p h =
      after_err _ s (clone_json_value v) e
        (λ x. after_err _ s (check_target op path (key ∷ rest) takes_items s) e (λ fits.
          write_at-err op path op path (append_to op path x) (append_to-err op path x)
            (λ k q. (tt, rw (read-end op path k q) refl)) key rest s e p))
        h
  update-err deletes s e p h =
      done_err (context_delete op path (key ∷ rest) s) s e
        (λ g.
          after_err _ s (traverse op path (key ∷ rest) s) e
            (λ parent.
              if_intro (λ (m : Fields × Result ContextError Bool). m.1 ≡ err e → m.0 ≡ s)
                (is_absent (read_last (key ∷ rest) parent)) (λ c. refl)
                (write_at-err op path op path (λ k q. (drop k q, ok true)) (λ k q e t. cc)
                  (λ k q. (true, refl)) key rest s e p))
            g)
        h

module _ (op : ContextOperation) (path : Text) (key : Text) (rest : List Text) where
  update-look :
      (u : Update) (s : Fields) (gop : ContextOperation) (gpath o : Text) (os : List Text)
      → diverges (key ∷ rest) (o ∷ os) ≡ true
      → IsPlain (o ∷ os)
      → look gop gpath o os (update u op path (key ∷ rest) s).0 ≡ look gop gpath o os s
  unfolding update context_set context_merge context_append context_delete
  update-look (sets v) s gop gpath o os d p =
      after_keeps _ s (λ t. look gop gpath o os t ≡ look gop gpath o os s) (clone_json_value v) refl
        (λ x.
          look-write_at gop gpath op path (λ k q. (put k x q, ok tt))
            (λ k other q. read-put_other k other x q) key rest o os s d p)
  update-look (merges v) s gop gpath o os d p =
      after_keeps _ s (λ t. look gop gpath o os t ≡ look gop gpath o os s) (merge_entries op path v)
        refl
        (λ x.
          after_keeps _ s (λ t. look gop gpath o os t ≡ look gop gpath o os s)
            (check_target op path (key ∷ rest) takes_entries s) refl
            (λ fits.
              look-write_at gop gpath op path (merge_into op path x) (merge_into-local op path x)
                key rest o os s d p))
  update-look (appends v) s gop gpath o os d p =
      after_keeps _ s (λ t. look gop gpath o os t ≡ look gop gpath o os s) (clone_json_value v) refl
        (λ x.
          after_keeps _ s (λ t. look gop gpath o os t ≡ look gop gpath o os s)
            (check_target op path (key ∷ rest) takes_items s) refl
            (λ fits.
              look-write_at gop gpath op path (append_to op path x) (append_to-local op path x) key
                rest o os s d p))
  update-look deletes s gop gpath o os d p =
      rw (done_store (context_delete op path (key ∷ rest) s)) (
        after_keeps _ s (λ t. look gop gpath o os t ≡ look gop gpath o os s)
          (traverse op path (key ∷ rest) s) refl
          (λ parent.
            if_intro
              (λ (m : Fields × Result ContextError Bool).
                look gop gpath o os m.0 ≡ look gop gpath o os s)
              (is_absent (read_last (key ∷ rest) parent)) refl
              (look-write_at gop gpath op path (λ k q. (drop k q, ok true)) read-drop_other key rest
                o os s d p)))

-- A read of the operations, by what its path leads to.
got_look :
    (m : Result ContextError (Option Fields)) (f : Option Fields → Read)
    → (m >>= λ parent. got (f parent)) ≡ ((m >>= λ parent. ok (f parent)) >>= got)
got_look (ok x) f = refl
got_look (err e) f = refl

get_look :
    (op : ContextOperation) (path o : Text) (os : List Text) (s : Fields)
    → context_get op path (o ∷ os) s ≡ (look op path o os s >>= got)
unfolding context_get
get_look op path o os s =
    got_look (traverse op path (o ∷ os) s) (read_last (o ∷ os))
    ∙ ap (λ m. m >>= got) (look_lem op path o os s)

pub clone-embed : (j : Json) → clone_json_value (embed j) ≡ ok j
unfolding clone_json_value
clone-embed j = rw (clone_json_value, check_and_clone-embed j) refl

get-own :
    (op : ContextOperation) (path key : Text) (rest : List Text) (s : Fields) (j : Json)
    (parent : Fields)
    → traverse op path (key ∷ rest) s ≡ ok (some (put (last (key ∷ rest)) j parent))
    → context_get op path (key ∷ rest) s ≡ ok (some j)
unfolding context_get value_of
get-own op path key rest s j parent h =
    rw h (rw (read-put_same (last (key ∷ rest)) j parent) (rw (clone-embed j) refl))

module _ (op : ContextOperation) (path : Text) (key : Text) (rest : List Text)
    (gop : ContextOperation) (gpath : Text) where
  -- Where a set returns, a get of the same path returns the clone of the value.
  pub context_set-get :
      (value : JsValue) (s : Fields)
      → (context_set op path (key ∷ rest) value s).1 ≡ ok tt
      → context_get gop gpath (key ∷ rest) (context_set op path (key ∷ rest) value s).0
        ≡ (clone_json_value value >>= λ cloned. ok (some cloned))
  unfolding context_set
  context_set-get value s = through (clone_json_value value)
    where
      through :
          (m : Result ContextError Json)
          → (after m s λ j. write_at op path (λ k q. (put k j q, ok tt)) (key ∷ rest) s).1 ≡ ok tt
          → context_get gop gpath
              (key ∷ rest)
              (after m s λ j. write_at op path (λ k q. (put k j q, ok tt)) (key ∷ rest) s).0
            ≡ (m >>= λ cloned. ok (some cloned))
      through (err e) h = cc
      through (ok j) h =
          let f = traverse-write_at gop gpath op path (λ k q. (put k j q, ok tt)) key rest s tt h in
          get-own gop gpath key rest _ j f.0 f.1

  -- Whatever the operation does to its path, a get of a path that branches off, none of whose segments
  -- is an inherited name, returns or throws the same as before.
  pub update-get :
      (u : Update) (s : Fields) (o : Text) (os : List Text)
      → diverges (key ∷ rest) (o ∷ os) ≡ true
      → IsPlain (o ∷ os)
      → context_get gop gpath (o ∷ os) (update u op path (key ∷ rest) s).0
        ≡ context_get gop gpath (o ∷ os) s
  update-get u s o os d p =
      get_look gop gpath o os _
      ∙ ap (λ m. m >>= got) (update-look op path key rest u s gop gpath o os d p)
      ∙ sym (get_look gop gpath o os s)
