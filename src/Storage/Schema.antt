-- ===== src/Storage/Schema.antt =====
-- testing.py: what applying a contract's statements does to a database.
use tqtk_price_streaming.Prelude.{
  ◌≡◌, ◌↔◌, ◌⊎◌, refl, ap, ◌∙◌, subst, inl, inr, Bool, true, Option, none, some, List, [], ◌∷◌,
  ◌++◌, All,
}
use tqtk_price_streaming.Prelude.Text.{Str}
use tqtk_price_streaming.Storage.{StorageContract}
use tqtk_price_streaming.Storage.Ddl.{render_ddl, Cursor, proceed, execute_all, create_schema}
use tqtk_price_streaming.Storage.Guards.{is_guarded, IsGuarded, render_ddl-IsGuarded}

-- What the databases document of such statements: one that has succeeded has built its object, and
-- the object stays there while others succeed; executed again, it changes nothing and does not raise.
pub record BuildsOnce {Database E : Type 0} (cursor : Cursor Database E) : Type 1 where
  pub IsBuilt : Database → Str → Type 0
  pub built :
      (db : Database) (s : Str)
      → is_guarded s ≡ true
      → (cursor.execute s db).1 ≡ none
      → IsBuilt (cursor.execute s db).0 s
  pub kept :
      (db : Database) (s t : Str)
      → is_guarded s ≡ true
      → (cursor.execute s db).1 ≡ none
      → IsBuilt db t
      → IsBuilt (cursor.execute s db).0 t
  pub again :
      (db : Database) (s : Str)
      → is_guarded s ≡ true
      → IsBuilt db s
      → cursor.execute s db ≡ (db, none)

module _ {Database E : Type 0} (cursor : Cursor Database E) where
  proceed-none :
      (o : Database × Option E) (rest : Database → Database × Option E) (db : Database)
      → proceed cursor o rest ≡ (db, none)
      → (o ≡ (o.0, none)) × (rest o.0 ≡ (db, none))
  unfolding proceed
  proceed-none (mid, none) rest db h = (refl, h)
  proceed-none (mid, some e) rest db h = absurd cc

  proceed-some :
      (o : Database × Option E) (rest : Database → Database × Option E) (db : Database) (e : E)
      → proceed cursor o rest ≡ (db, some e)
      → (o ≡ (db, some e)) ⊎ ((o ≡ (o.0, none)) × (rest o.0 ≡ (db, some e)))
  unfolding proceed
  proceed-some (mid, none) rest db e h = inr (refl, h)
  proceed-some (mid, some _) rest db e h = inl h

  -- The statement that raised, after all before it and before all that follow it.
  pub record StopsAt (statements : List Str) (db last : Database) (e : E) : Type 0 where
    pub done : List Str
    pub failing : Str
    pub undone : List Str
    pub middle : Database
    pub order : statements ≡ done ++ (failing ∷ undone)
    pub succeeded : execute_all cursor done db ≡ (middle, none)
    pub failed : cursor.execute failing middle ≡ (last, some e)

  execute_all-StopsAt :
      (ss : List Str) (db last : Database) (e : E)
      → execute_all cursor ss db ≡ (last, some e)
      → StopsAt ss db last e
  unfolding execute_all proceed
  execute_all-StopsAt [] db last e h = absurd cc
  execute_all-StopsAt (s ∷ ss) db last e h =
      elim (proceed-some (cursor.execute s db) (execute_all cursor ss) last e h) [
        | inl here ↦ record {
          done = [];
          failing = s;
          undone = ss;
          middle = db;
          order = refl;
          succeeded = refl;
          failed = here;
        }
        | inr (fine, later) ↦
            let at = execute_all-StopsAt ss (cursor.execute s db).0 last e later in
            record {
              done = s ∷ at.done;
              failing = at.failing;
              undone = at.undone;
              middle = at.middle;
              order = ap (◌∷◌ s) at.order;
              succeeded =
                  ap (λ o. proceed cursor o (execute_all cursor at.done)) fine ∙ at.succeeded;
              failed = at.failed;
            }
      ]

  stopped-execute_all :
      (done : List Str) (s : Str) (undone : List Str) (db middle last : Database) (e : E)
      → execute_all cursor done db ≡ (middle, none)
      → cursor.execute s middle ≡ (last, some e)
      → execute_all cursor (done ++ (s ∷ undone)) db ≡ (last, some e)
  unfolding execute_all proceed
  stopped-execute_all [] s undone db middle last e h k =
      ap (λ o. proceed cursor o (execute_all cursor undone))
        (ap (cursor.execute s) (ap (λ o. o.0) h) ∙ k)
  stopped-execute_all (t ∷ done) s undone db middle last e h k =
      let (fine, rest) = proceed-none (cursor.execute t db) (execute_all cursor done) middle h in
      ap (λ o. proceed cursor o (execute_all cursor (done ++ (s ∷ undone)))) fine
      ∙ stopped-execute_all done s undone (cursor.execute t db).0 middle last e rest k

  create_schema-StopsAt_iff :
      (contract : StorageContract) (hypertable : Bool) (db last : Database) (e : E)
      → (create_schema cursor contract hypertable db ≡ (last, some e))
        ↔ StopsAt (render_ddl contract hypertable) db last e
  unfolding create_schema
  create_schema-StopsAt_iff contract hypertable db last e = (
    execute_all-StopsAt (render_ddl contract hypertable) db last e,
    λ at.
        ap (λ ss. execute_all cursor ss db) at.order
        ∙ stopped-execute_all at.done at.failing at.undone db at.middle last e at.succeeded
            at.failed,
  )

  module _ (once : BuildsOnce cursor) where
    all-kept :
        (ss : List Str) (db last : Database) (t : Str)
        → All IsGuarded ss
        → execute_all cursor ss db ≡ (last, none)
        → once.IsBuilt db t
        → once.IsBuilt last t
    unfolding execute_all
    all-kept [] db last t g h b = subst (λ d. once.IsBuilt d t) (cc h) b
    all-kept (s ∷ ss) db last t g h b =
        let (fine, rest) = proceed-none (cursor.execute s db) (execute_all cursor ss) last h in
        all-kept ss (cursor.execute s db).0 last t g.1 rest
          (once.kept db s t g.0 (ap (λ o. o.1) fine) b)

    All-built :
        (ss : List Str) (db last : Database)
        → All IsGuarded ss
        → execute_all cursor ss db ≡ (last, none)
        → All (once.IsBuilt last) ss
    unfolding execute_all
    All-built [] db last g h = tt
    All-built (s ∷ ss) db last g h =
        let (fine, rest) = proceed-none (cursor.execute s db) (execute_all cursor ss) last h in
        (
          all-kept ss (cursor.execute s db).0 last s g.1 rest
              (once.built db s g.0 (ap (λ o. o.1) fine)),
          All-built ss (cursor.execute s db).0 last g.1 rest,
        )

    All-again :
        (ss : List Str) (db : Database)
        → All IsGuarded ss
        → All (once.IsBuilt db) ss
        → execute_all cursor ss db ≡ (db, none)
    unfolding execute_all proceed
    All-again [] db g b = refl
    All-again (s ∷ ss) db g b =
        ap (λ o. proceed cursor o (execute_all cursor ss)) (once.again db s g.0 b.0)
        ∙ All-again ss db g.1 b.1

    -- On a database where a guarded statement that succeeded changes nothing when it is
    -- executed again, applying a contract's schema a second time after a success changes
    -- nothing and raises nothing.
    pub create_schema_again :
        (contract : StorageContract) (hypertable : Bool) (db last : Database)
        → create_schema cursor contract hypertable db ≡ (last, none)
        → create_schema cursor contract hypertable last ≡ (last, none)
    unfolding create_schema
    create_schema_again contract hypertable db last h =
        let g = render_ddl-IsGuarded contract hypertable in
        let ss = render_ddl contract hypertable in All-again ss last g (All-built ss db last g h)
