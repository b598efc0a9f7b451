-- ===== src/Context/Operations/Laws.antt =====
-- Reads after writes in the store of the workflow context.
use open_dynamic_workflow.Base.{
  ℕ_eq, List_eq, ◌==◌, ◌≡◌, refl, false, some, List, [], ◌∷◌, Text, Result, ok, err, ◌>>=◌, arith,
}
use open_dynamic_workflow.Context.Json.{Json, Fields}
use open_dynamic_workflow.Context.Operations.Objects.{
  put, Read, absent, own, read, Child, missing, listed, scalar, inside, child, find-put, text_iff,
}
use open_dynamic_workflow.Context.Operations.{
  ContextOperation, ContextError, mismatch, traverse, write_at, last, read_last, read_child,
  write_child,
}

pub read-put_same : (key : Text) (v : Json) (fs : Fields) → read key (put key v fs) ≡ own v
unfolding read
read-put_same key v fs = ground (arith, find-put key key v fs, text_iff key key)

pub read-put_other :
    (key other : Text) (v : Json) (fs : Fields)
    → (key == other) ≡ false
    → read other (put key v fs) ≡ read other fs
unfolding read
read-put_other key other v fs h = ground (arith, find-put key other v fs, h)

module _ (op : ContextOperation) (full_path : Text) where
  -- What a path leads to.
  abbrev pub look_child : (Fields → Result ContextError Read) → Child → Result ContextError Read
  look_child go missing = ok absent
  look_child go scalar = ok absent
  look_child go listed = err (mismatch op full_path)
  look_child go (inside fields) = go fields

  unfoldable pub look : Text → List Text → Fields → Result ContextError Read
  look key [] store = ok (read key store)
  look key (next ∷ rest) store = look_child (look next rest) (child (read key store))

  pub look_lem :
      (key : Text) (rest : List Text) (store : Fields)
      → (traverse op full_path (key ∷ rest) store >>= λ parent. ok (read_last (key ∷ rest) parent))
        ≡ look key rest store
  unfolding look traverse last
  look_lem key [] store = refl
  look_lem key (next ∷ rest) store = through (child (read key store)) (look_lem next rest)
    where
      through :
          (c : Child)
          → ((fs : Fields)
              → (traverse op full_path (next ∷ rest) fs >>= λ parent.
                  ok (read_last (next ∷ rest) parent))
                ≡ look next rest fs)
          → (read_child op full_path (traverse op full_path (next ∷ rest)) c >>= λ parent.
              ok (read_last (key ∷ next ∷ rest) parent))
            ≡ look_child (look next rest) c
      through missing ih = refl
      through scalar ih = refl
      through listed ih = refl
      through (inside fields) ih = ih fields

  module _ (wop : ContextOperation) (written : Text) {A : Type 0}
      (act : Text → Fields → Fields × Result ContextError A) where
    -- What `traverse` finds where the write has returned.
    abbrev Found : Text → List Text → Fields → A → Type 0
    Found key rest store r =
        (parent : Fields) × (traverse op full_path (key ∷ rest) store
          ≡ ok (some (act (last (key ∷ rest)) parent).0))
        × ((act (last (key ∷ rest)) parent).1 ≡ ok r)

    Found-below :
        (key next : Text) (rest : List Text) (store fields : Fields) (r : A)
        → Found next rest fields r
        → Found key (next ∷ rest) (put key (Json.object fields) store) r
    unfolding traverse last child
    Found-below key next rest store fields r f =
        (f.0, rw (read-put_same key (Json.object fields) store) f.1, f.2)

    -- A write that returns is found by a read of the same path.
    pub traverse-write_at :
        (key : Text) (rest : List Text) (store : Fields) (r : A)
        → (write_at wop written act (key ∷ rest) store).1 ≡ ok r
        → Found key rest (write_at wop written act (key ∷ rest) store).0 r
    unfolding traverse write_at last
    traverse-write_at key [] store r h = (store, refl, h)
    traverse-write_at key (next ∷ rest) store r h =
        through (child (read key store)) (λ fs. traverse-write_at next rest fs r) h
      where
        through :
            (c : Child)
            → ((fs : Fields)
                → (write_at wop written act (next ∷ rest) fs).1 ≡ ok r
                → Found next rest (write_at wop written act (next ∷ rest) fs).0 r)
            → (write_child wop written key store (write_at wop written act (next ∷ rest)) c).1
              ≡ ok r
            → Found key
                (next ∷ rest)
                (write_child wop written key store (write_at wop written act (next ∷ rest)) c).0
                r
        through missing ih k = Found-below key next rest store _ r (ih Fields.end k)
        through listed ih k = cc
        through scalar ih k = cc
        through (inside fields) ih k = Found-below key next rest store _ r (ih fields k)
