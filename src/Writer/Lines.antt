-- ===== src/Writer/Lines.antt =====
-- What a consumer finds in the files of ingestion/src/trade_sim/writer.py.
use Prim.Native.Char.{code}
use snowflake_trade_pipeline.Prelude.{
  ◌≡◌, refl, sym, ap, ◌∙◌, String, Bool, true, false, not, ◌&&◌, List, [], ◌∷◌, Option, none, some,
  map, All, if◌then◌else◌, ◌==◌, nat_eq, string_eq, inl, inr, Bool-cases,
}
use snowflake_trade_pipeline.Prelude.Dict.{
  lookup, insert, remove, lookup-insert, lookup-remove, lookup-insert_self,
}
use snowflake_trade_pipeline.Deploy.Texts.{append, append_assoc, append-nil}
use snowflake_trade_pipeline.Schema.{GeneratedEvent}
use snowflake_trade_pipeline.Schema.Codecs.{Codec}
use snowflake_trade_pipeline.Writer.{
  Files, BatchWriter, Moment, line_of, serialise, content, final_path, rename, write,
}

-- The lines of a text, each up to its line feed; what stands behind the last one is dropped.
abbrev pub lines_behind : String → String → List String
lines_behind acc String.[] = []
lines_behind acc (String.◌∷◌ c s) = elim (code c == b'\n') [
  | true ↦ acc ∷ lines_behind "" s
  | false ↦ lines_behind (append acc (String.◌∷◌ c "")) s
]

abbrev pub is_one_line : String → Bool
is_one_line String.[] = true
is_one_line (String.◌∷◌ c s) = not (code c == b'\n') && is_one_line s

lines_behind-append :
    (acc s rest : String)
    → is_one_line s ≡ true
    → lines_behind acc (append s (append "\n" rest)) ≡ append acc s ∷ lines_behind "" rest
lines_behind-append acc String.[] rest h = ap (λ a. a ∷ lines_behind "" rest) (sym (append-nil acc))
lines_behind-append acc (String.◌∷◌ c s) rest h = elim (Bool-cases (code c == b'\n')) [
  | inl e ↦ absurd (cc (rw e at h))
  | inr e ↦
      rw (e, lines_behind)
        (lines_behind-append (append acc (String.◌∷◌ c "")) s rest (rw e at h)
          ∙ ap (λ a. a ∷ lines_behind "" rest) (append_assoc acc (String.◌∷◌ c "") s))
]

rename-appears :
    (files : Files) (from to text path : String)
    → lookup files from ≡ some text
    → lookup (rename files from to) path
      ≡ (if to == path then some text else if from == path then none else lookup files path)
unfolding rename
rename-appears files from to text path e =
    rw (e, rename)
      (lookup-insert (remove files from) to path text
        ∙ ap (λ r. if to == path then some text else r) (lookup-remove files from path))

replaced :
    (a b : Bool) (text : String) (before : Option String)
    → (if a then some text else if b then none else if b then some text else before)
      ≡ (if a then some text else if b then none else before)
replaced true b text before = refl
replaced false true text before = refl
replaced false false text before = refl

module _ (codec : Codec) where
  -- A batch is read back line by line, payload by payload, where no payload holds a line feed.
  pub lines-serialise :
      (events : List GeneratedEvent)
      → All (λ e. is_one_line (line_of codec e) ≡ true) events
      → lines_behind "" (serialise codec events) ≡ map (line_of codec) events
  unfolding serialise
  lines-serialise [] h = refl
  lines-serialise (e ∷ es) h =
      lines_behind-append "" (line_of codec e) (serialise codec es) h.0
      ∙ ap (λ r. line_of codec e ∷ r) (lines-serialise es h.1)

  -- A batch appears under its final name whole or not at all: once it is written, its file holds
  -- its content, the temporary file is gone, and every other file is as it was.
  pub write-appears :
      (gzip : String → String) (w : BatchWriter) (events : List GeneratedEvent) (batch_ref : String)
      (when : Moment) (files : Files) (path : String)
      → let final = final_path codec gzip w events batch_ref when in
        lookup (write codec gzip w events batch_ref when files) path ≡ (
          if final == path
          then some (content codec gzip w events)
          else if append final ".partial" == path
          then none
          else lookup files path)
  unfolding write rename
  write-appears gzip w events batch_ref when files path =
      let final = final_path codec gzip w events batch_ref when in
      let temporary = append final ".partial" in
      let text = content codec gzip w events in
      rename-appears (insert files temporary text) temporary final text path
        (lookup-insert_self files temporary text)
      ∙ ap (λ r. if final == path then some text else if temporary == path then none else r)
          (lookup-insert files temporary path text)
      ∙ replaced (final == path) (temporary == path) text (lookup files path)
