-- ===== src/Gstreamer/Source/Registry.antt =====
-- internal/gstreamer-src/gst.go: the buffers of each pipeline reach the writer it was made with.
use Prim.Native.String.{String}
use rtq_go_endpoint.Common.{
  All-mono, ℕ, ◌+◌, ◌≤◌, ◌≡◌, refl, Option, none, some, List, [], ◌∷◌, ◌++◌, length, lookup, insert,
  lookup-insert, All, All-append, ==_refl, arith,
}
use rtq_go_endpoint.Gstreamer.Source.{
  Pipeline, pipeline_text, Registry, register, new_pipeline, handle_pipeline_buffer,
}

length-insert_new :
    {V : Type 0} (k : ℕ) (v : V) (m : List (ℕ × V))
    → lookup k m ≡ none
    → length (insert k v m) ≡ length m + 1
unfolding lookup insert
length-insert_new k v [] h = refl
length-insert_new k v ((j, w) ∷ m) h = ground (arith, length-insert_new k v m)

module _ (W : Type 0) where
  -- Every id from the length on is free.
  record Dense (reg : Registry W) : Type 0 where
    free : (id : ℕ) → length reg ≤ id → lookup id reg ≡ none

  -- A call of `NewPipeline`: codec, source, writer.
  abbrev pub Request : Type 0
  Request = String × String × W

  abbrev noted : W → Option Pipeline → List (Pipeline × W)
  noted w none = []
  noted w (some p) = (p, w) ∷ []

  -- The pipelines that the calls return, with their writers, and the registry afterwards.
  unfoldable pub create : List Request → Registry W → List (Pipeline × W) × Registry W
  create [] reg = ([], reg)
  create ((codec, src, w) ∷ rest) reg =
      let (made, reg') = new_pipeline W codec src w reg in
      let (later, last) = create rest reg' in (noted w made ++ later, last)

  -- `reg'` is dense and has what `reg` has.
  record Extends (reg reg' : Registry W) : Type 0 where
    dense : Dense reg'
    kept : (id : ℕ) (x : Pipeline × W) → lookup id reg ≡ some x → lookup id reg' ≡ some x

  register-Extends :
      (codec : String) (w : W) (reg : Registry W) (o : Option (String × String))
      → Dense reg
      → Extends reg (register W codec w reg o).1
        × All
            (λ (m : Pipeline × W). lookup m.0.id (register W codec w reg o).1 ≡ some m)
            (noted w (register W codec w reg o).0)
  unfolding register
  register-Extends codec w reg none d = (record { dense = d; kept = λ id x h. h }, tt)
  register-Extends codec w reg (some (payloader, text)) d =
      let sp : Pipeline = record {
        id = length reg;
        pipeline_str = text;
        payloader = payloader;
        codec = codec;
      } in
      let fresh : lookup (length reg) reg ≡ none = d.free (length reg) (omega arith) in
      (
        record {
          dense = record {
            free = λ id h.
                let longer : length (insert (length reg) (sp, w) reg) ≡ length reg + 1 =
                  length-insert_new (length reg) (sp, w) reg fresh in
                ground (arith, longer, lookup-insert (length reg) id (sp, w) reg, d.free id);
          };
          kept = λ id x h. ground (arith, lookup-insert (length reg) id (sp, w) reg, fresh);
        },
        (rw (lookup-insert (length reg) (length reg) (sp, w) reg, ==_refl (length reg)), tt),
      )

  abbrev Holds : Registry W → List (Pipeline × W) → Type 0
  Holds reg made = All (λ (m : Pipeline × W). lookup m.0.id reg ≡ some m) made

  create-Extends :
      (reqs : List Request) (reg : Registry W)
      → Dense reg
      → Extends reg (create reqs reg).1 × Holds (create reqs reg).1 (create reqs reg).0
  unfolding create new_pipeline
  create-Extends [] reg d = (record { dense = d; kept = λ id x h. h }, tt)
  create-Extends ((codec, src, w) ∷ rest) reg d =
      let step = register W codec w reg (pipeline_text codec src) in
      let (grown, here) = register-Extends codec w reg (pipeline_text codec src) d in
      let (more, later) = create-Extends rest step.1 grown.dense in
      (
        record { dense = more.dense; kept = λ id x h. more.kept id x (grown.kept id x h) },
        All-append _ (noted w step.0) _
            (All-mono _ _ (λ (m : Pipeline × W) h. more.kept m.0.id m h) (noted w step.0) here)
            later,
      )

  -- However many pipelines are made, also with unknown codecs between them: a buffer that comes from one
  -- of them, unless it is empty, goes to the writer that this one was made with, whole.
  pub buffers_reach_writer :
      (reqs : List Request) (b : ℕ) (bs : List ℕ)
      → All
          (λ (m : Pipeline × W).
            handle_pipeline_buffer W (b ∷ bs) m.0.id (create reqs []).1 ≡ some (m.1, b ∷ bs))
          (create reqs []).0
  unfolding handle_pipeline_buffer
  buffers_reach_writer reqs b bs =
      All-mono _ _
        (λ (m : Pipeline × W) (h : lookup m.0.id (create reqs []).1 ≡ some m).
          rw (handle_pipeline_buffer, h))
        (create reqs []).0 (create-Extends reqs [] (record { free = λ id h. nothing id })).1
    where
      nothing : (id : ℕ) → lookup {V = Pipeline × W} id [] ≡ none
      nothing id = unfold lookup in refl
