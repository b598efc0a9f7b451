-- ===== src/Context/Operations/Frame.antt =====
-- What a write to the store leaves alone: the paths that branch off, and all of it where it throws.
use open_dynamic_workflow.Base.{
  ℕ_eq, List_eq, ◌==◌, ◌≡◌, refl, ap, ◌∙◌, subst, Bool, true, false, if◌then◌else◌, Bool-cases, inl,
  inr, some, List, [], ◌∷◌, All, Text, Result, ok, err, arith,
}
use open_dynamic_workflow.Context.Json.{Json, Fields}
use open_dynamic_workflow.Context.Operations.Objects.{
  find, put, absent, read, Child, missing, listed, scalar, inside, child, is_inherited, put_same,
  text_iff,
}
use open_dynamic_workflow.Context.Operations.{ContextOperation, ContextError, write_at, write_child}
use open_dynamic_workflow.Context.Operations.Laws.{read-put_same, read-put_other, look, look_child}

-- Two paths part before either ends.
unfoldable pub diverges : List Text → List Text → Bool
diverges [] others = false
diverges (key ∷ keys) [] = false
diverges (key ∷ keys) (other ∷ others) = if key == other then diverges keys others else true

-- No segment is the name of something that each object inherits.
abbrev pub IsPlain : List Text → Type 0
IsPlain segments = All (λ key. is_inherited key ≡ false) segments

child-end : (key : Text) → is_inherited key ≡ false → child (read key Fields.end) ≡ missing
unfolding child read find
child-end key h = rw h

inside_find :
    (key : Text) (s fields : Fields)
    → child (read key s) ≡ inside fields
    → find key s ≡ some (Json.object fields)
unfolding child read
inside_find key s fields h = ground (arith, h)

module _ (op : ContextOperation) (full_path : Text) where
  look-same :
      (o : Text) (os : List Text) (s s' : Fields)
      → read o s ≡ read o s'
      → look op full_path o os s ≡ look op full_path o os s'
  unfolding look
  look-same o [] s s' h = ap ok h
  look-same o (next ∷ os) s s' h =
      ap (λ r. look_child op full_path (look op full_path next os) (child r)) h

  look-end :
      (o : Text) (os : List Text)
      → is_inherited o ≡ false
      → look op full_path o os Fields.end ≡ ok absent
  unfolding look read find child
  look-end o [] h = rw h
  look-end o (next ∷ os) h = rw h

  module _ (wop : ContextOperation) (written : Text) {A : Type 0}
      (act : Text → Fields → Fields × Result ContextError A)
      (local : (key other : Text) (p : Fields)
        → (key == other) ≡ false
        → read other (act key p).0 ≡ read other p) where
    read-write_at :
        (key other : Text) (rest : List Text) (s : Fields)
        → (key == other) ≡ false
        → read other (write_at wop written act (key ∷ rest) s).0 ≡ read other s
    unfolding write_at
    read-write_at key other [] s h = local key other s h
    read-write_at key other (next ∷ rest) s h = through (child (read key s))
      where
        through :
            (c : Child)
            → read other
                (write_child wop written key s (write_at wop written act (next ∷ rest)) c).0
              ≡ read other s
        through missing = read-put_other key other _ s h
        through listed = refl
        through scalar = refl
        through (inside fields) = read-put_other key other _ s h

    apart :
        (key : Text) (rest : List Text) (o : Text) (os : List Text) (s : Fields)
        → (key == o) ≡ false
        → look op full_path o os (write_at wop written act (key ∷ rest) s).0
          ≡ look op full_path o os s
    apart key rest o os s h = look-same o os _ s (read-write_at key o rest s h)

    -- Below a first segment that they share.
    together :
        (key next : Text) (rest : List Text) (other : Text) (os : List Text) (s : Fields)
        → is_inherited other ≡ false
        → ((fs : Fields)
            → look op full_path other os (write_at wop written act (next ∷ rest) fs).0
              ≡ look op full_path other os fs)
        → look op full_path key (other ∷ os) (write_at wop written act (key ∷ next ∷ rest) s).0
          ≡ look op full_path key (other ∷ os) s
    unfolding look write_at child
    together key next rest other os s p ih = through (child (read key s)) refl
      where
        through :
            (c : Child)
            → child (read key s) ≡ c
            → look_child op full_path (look op full_path other os) (
                child (
                  read key
                    (write_child wop written key s (write_at wop written act (next ∷ rest)) c).0))
              ≡ look_child op full_path (look op full_path other os) c
        through missing e =
            rw
              (read-put_same key (Json.object (write_at wop written act (next ∷ rest) Fields.end).0)
                s)
              (ih Fields.end ∙ look-end other os p)
        through listed e = ap (look_child op full_path (look op full_path other os)) e
        through scalar e = ap (look_child op full_path (look op full_path other os)) e
        through (inside fields) e =
            rw (read-put_same key (Json.object (write_at wop written act (next ∷ rest) fields).0) s)
              (ih fields)

    -- A write does not change what a path that branches off leads to.
    pub look-write_at :
        (key : Text) (rest : List Text) (o : Text) (os : List Text) (s : Fields)
        → diverges (key ∷ rest) (o ∷ os) ≡ true
        → IsPlain (o ∷ os)
        → look op full_path o os (write_at wop written act (key ∷ rest) s).0
          ≡ look op full_path o os s
    unfolding diverges
    look-write_at key [] o os s d p = apart key [] o os s (ground (arith, d))
    look-write_at key (next ∷ rest) o [] s d p = apart key (next ∷ rest) o [] s (ground (arith, d))
    look-write_at key (next ∷ rest) o (other ∷ os) s d p = elim (Bool-cases (key == o)) [
      | inr different ↦ apart key (next ∷ rest) o (other ∷ os) s different
      | inl same ↦
          subst
            (λ k.
              look op full_path k (other ∷ os) (write_at wop written act (key ∷ next ∷ rest) s).0
              ≡ look op full_path k (other ∷ os) s)
            ((text_iff key o).0 same)
            (together key next rest other os s p.1.0
              (λ fs. look-write_at next rest other os fs (ground (arith, d, same)) p.1))
    ]

  module _ (wop : ContextOperation) (written : Text) {A : Type 0}
      (act : Text → Fields → Fields × Result ContextError A)
      (atomic : (key : Text) (p : Fields) (e : ContextError)
        → (act key p).1 ≡ err e
        → (act key p).0 ≡ p)
      (fresh : (key : Text)
        → is_inherited key ≡ false
        → (r : A) × ((act key Fields.end).1 ≡ ok r)) where
    write_at-end :
        (key : Text) (rest : List Text)
        → IsPlain (key ∷ rest)
        → (r : A) × ((write_at wop written act (key ∷ rest) Fields.end).1 ≡ ok r)
    unfolding write_at
    write_at-end key [] p = fresh key p.0
    write_at-end key (next ∷ rest) p = rw (child-end key p.0) (write_at-end next rest p.1)

    -- A write that throws changes nothing.
    pub write_at-err :
        (key : Text) (rest : List Text) (s : Fields) (e : ContextError)
        → IsPlain (key ∷ rest)
        → (write_at wop written act (key ∷ rest) s).1 ≡ err e
        → (write_at wop written act (key ∷ rest) s).0 ≡ s
    unfolding write_at
    write_at-err key [] s e p h = atomic key s e h
    write_at-err key (next ∷ rest) s e p h =
        through (child (read key s)) refl (λ fs. write_at-err next rest fs e p.1) h
      where
        through :
            (c : Child)
            → child (read key s) ≡ c
            → ((fs : Fields)
                → (write_at wop written act (next ∷ rest) fs).1 ≡ err e
                → (write_at wop written act (next ∷ rest) fs).0 ≡ fs)
            → (write_child wop written key s (write_at wop written act (next ∷ rest)) c).1 ≡ err e
            → (write_child wop written key s (write_at wop written act (next ∷ rest)) c).0 ≡ s
        through missing i ih k = cc (write_at-end next rest p.1).1
        through listed i ih k = refl
        through scalar i ih k = refl
        through (inside fields) i ih k =
            ap (λ fs. put key (Json.object fs) s) (ih fields k)
            ∙ put_same key (Json.object fields) s (inside_find key s fields i)
