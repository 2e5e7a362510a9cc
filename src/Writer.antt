-- ===== src/Writer.antt =====
-- BatchWriter of ingestion/src/trade_sim/writer.py, over files as a dictionary from paths to their
-- contents. The texts of a moment, the compression and the manifest's JSON are arguments.
pub mod Lines
use Prim.Native.Char.{code}
use snowflake_trade_pipeline.Prelude.{
  ℕ, suc, String, Bool, true, false, not, List, [], ◌∷◌, Option, none, some, if◌then◌else◌, ◌==◌,
  nat_eq, string_eq, length, count_if,
}
use snowflake_trade_pipeline.Prelude.Dict.{Dict, lookup, insert, remove}
use snowflake_trade_pipeline.Book.Format.{zero_padded}
use snowflake_trade_pipeline.Deploy.Texts.{append}
use snowflake_trade_pipeline.Schema.{GeneratedEvent, object, verbatim}
use snowflake_trade_pipeline.Schema.Codecs.{Codec}
use snowflake_trade_pipeline.Arbitration.{or_zero}
use snowflake_trade_pipeline.Arbitration.Manifest.{BatchManifest}

abbrev pub Files : Type 0
Files = Dict String String

pub record BatchWriter : Type 0 where
  pub output_dir : String
  pub env : String
  pub compress : Bool
  -- the directory beside `output_dir`
  pub manifest_dir : String

-- `when.strftime("%Y%m%dT%H%M%SZ")` and `when.date().isoformat()`
pub record Moment : Type 0 where
  pub stamp : String
  pub day : String

unfoldable pub partition_dir : BatchWriter → Moment → String
partition_dir w when = append w.output_dir (append "/ingest_date=" when.day)

unfoldable pub file_name : BatchWriter → Moment → String → ℕ → String
unfolding zero_padded
file_name w when batch_ref count = append "trades_" (
    append w.env (
      append "_" (
        append when.stamp (
          append "_" (
            append batch_ref (
              append "_" (
                append (zero_padded 1 count) (if w.compress then ".ndjson.gz" else ".ndjson"))))))))

-- `name.split(".")[0]`
unfoldable pub stem : String → String
stem String.[] = ""
stem (String.◌∷◌ c s) = let rest = stem s in if code c == b'.' then "" else String.◌∷◌ c rest

-- `tmp.replace(path)`
unfoldable pub rename : Files → String → String → Files
unfolding lookup insert remove
rename files from to = elim (lookup files from) [
  | none ↦ files
  | some content ↦ insert (remove files from) to content
]

module _ (codec : Codec) where
  unfoldable pub line_of : GeneratedEvent → String
  line_of e = elim e.payload [ verbatim s ↦ s | object fields ↦ codec.dumps fields ]

  -- `_serialise`: each payload with a line feed behind it.
  unfoldable pub serialise : List GeneratedEvent → String
  unfolding line_of
  serialise [] = ""
  serialise (e ∷ es) = append (line_of e) (append "\n" (serialise es))

  module _ (gzip : String → String) (w : BatchWriter) where
    unfoldable pub content : List GeneratedEvent → String
    unfolding serialise
    content events = if w.compress then gzip (serialise events) else serialise events

    unfoldable pub final_path : List GeneratedEvent → String → Moment → String
    unfolding partition_dir file_name
    final_path events batch_ref when =
        append (partition_dir w when) (append "/" (file_name w when batch_ref (length events)))

    -- The temporary file is written and then renamed.
    unfoldable pub write : List GeneratedEvent → String → Moment → Files → Files
    unfolding content final_path rename insert
    write events batch_ref when files =
        let path = final_path events batch_ref when in
        let temporary = append path ".partial" in
        rename (insert files temporary (content events)) temporary path

  unfoldable pub manifest_path : BatchWriter → String → String
  unfolding stem
  manifest_path w data_name =
      append w.manifest_dir (append "/" (append (stem data_name) ".manifest.json"))

  unfoldable pub write_manifest :
      (BatchManifest → String) → BatchWriter → BatchManifest → String → Files → Files
  unfolding manifest_path insert
  write_manifest dump w manifest data_name files =
      insert files (manifest_path w data_name) (dump manifest)

-- `e.injected_fault or "clean"`
unfoldable pub fault_label : GeneratedEvent → String
fault_label e = elim e.injected_fault [ none ↦ "clean" | some f ↦ if f == "" then "clean" else f ]

unfoldable pub count_faults : Dict String ℕ → List GeneratedEvent → Dict String ℕ
unfolding fault_label lookup insert
count_faults d [] = d
count_faults d (e ∷ es) =
    count_faults (insert d (fault_label e) (suc (or_zero (lookup d (fault_label e))))) es

-- `summarise_events`, without the order of its faults
pub record Summary : Type 0 where
  pub total : ℕ
  pub expected_accepted : ℕ
  pub expected_rejected : ℕ
  pub by_fault : Dict String ℕ

unfoldable pub summarise_events : List GeneratedEvent → Summary
unfolding count_faults count_if
summarise_events events = record {
  total = length events;
  expected_accepted = count_if (λ e. e.expected_verdict == "ACCEPTED") events;
  expected_rejected = count_if (λ e. e.expected_verdict == "REJECTED") events;
  by_fault = count_faults [] events;
}
