-- ===== src/Commands/Operations.antt =====
-- The other commands of ingestion/src/trade_sim/cli.py: `load`, `stream`, `drain`, `reconcile`,
-- `emit-seeds`, `status` and `reset-book`. Confirmations and the texts printed are left out.
use Prim.Native.Char.{code}
use snowflake_trade_pipeline.Prelude.{
  is_empty, ℕ, ◌+◌, String, Bool, true, false, not, ◌&&◌, ◌||◌, Option, none, some, List, [], ◌∷◌,
  map, if◌then◌else◌, ◌==◌, string_eq, nat_eq,
}
use snowflake_trade_pipeline.Result.{Result, ok, err}
use snowflake_trade_pipeline.Deploy.Texts.{append}
use snowflake_trade_pipeline.SqlRunner.Table.{join}
use snowflake_trade_pipeline.Schema.Codecs.{Codec}
use snowflake_trade_pipeline.Book.Sharing.{Payload, load as load_book, save as save_book}
use snowflake_trade_pipeline.Generator.Draws.{Settings}
use snowflake_trade_pipeline.Arbitration.Manifest.{BatchManifest}
use snowflake_trade_pipeline.Reconcile.{ReconciliationResult, passed}
use snowflake_trade_pipeline.Reference.Seeds.{SeedSpec}
use snowflake_trade_pipeline.Session.{
  Value, number, Members, no_members, member, Driver, Session, sleeps, asked,
}
use snowflake_trade_pipeline.Loader.{LocalFile, load_file}
use snowflake_trade_pipeline.Writer.{BatchWriter, final_path}
use snowflake_trade_pipeline.Commands.{Batch, Written, Simulation, generate_batch}

-- `result.get(key)`
unfoldable pub get_member : Members → String → Option Value
get_member no_members k = none
get_member (member j v m) k = elim (j == k) [ true ↦ some v | false ↦ get_member m k ]

-- `int(result.get("rows_loaded") or 0)`, for the numbers that the procedure returns
unfoldable pub rows_loaded : Members → ℕ
unfolding get_member
rows_loaded m = elim (get_member m "rows_loaded") [
  | some v ↦ elim v [ number n ↦ n | _ ↦ 0 ]
  | none ↦ 0
]

-- The simulation, the rows loaded, and the session.
pub record Load : Type 0 where
  pub simulation : Simulation
  pub total_rows : ℕ
  pub session : Session

module _ (codec : Codec) (settings : Settings) (as_of : ℕ) (gzip : String → String)
    (dump : BatchManifest → String) (w : BatchWriter) (loads : String → Result Value)
    (driver : Driver) (max_retries : ℕ) where
  unfoldable pub data_file : Batch → Written → LocalFile
  unfolding final_path
  data_file b written = record {
    name = written.name;
    resolved = final_path codec gzip w written.events b.batch_ref b.when;
  }

  -- The batch that was written last is loaded.
  unfoldable pub load_last : Bool → String → Batch → List Written → Load → Result Load
  unfolding load_file rows_loaded data_file
  load_last drain run_id b [] l = ok l
  load_last drain run_id b (x ∷ (y ∷ ws)) l = load_last drain run_id b (y ∷ ws) l
  load_last drain run_id b (x ∷ []) l =
      let (result, session) =
        load_file loads driver max_retries "RAW.TRADE_LANDING" (data_file b x)
          (append "ingest_date=" b.when.day) run_id drain l.session in
      elim result [
        | err e ↦ err e
        | ok m ↦ ok record {
          simulation = l.simulation;
          total_rows = l.total_rows + rows_loaded m;
          session = session;
        }
      ]

  unfoldable pub load_batches : Bool → String → Load → List Batch → Result Load
  unfolding generate_batch load_last
  load_batches drain run_id l [] = ok l
  load_batches drain run_id l (b ∷ bs) =
      elim (generate_batch codec settings as_of gzip dump w l.simulation b) [
        | err e ↦ err e
        | ok s ↦ elim (load_last drain run_id b s.written (record l { simulation = s })) [
          | err e ↦ err e
          | ok next ↦ load_batches drain run_id next bs
        ]
      ]

  -- `stream`, up to the files that it is to emit: the book is read and saved again for each, and
  -- the drain is left to the warehouse.
  unfoldable pub stream : ℕ → Option Payload → Load → List Batch → Result (Option Payload × Load)
  unfolding generate_batch load_last load_book save_book
  stream interval stored l [] = ok (stored, l)
  stream interval stored l (b ∷ bs) = elim (load_book stored) [
    | err e ↦ err e
    | ok book ↦
        elim (generate_batch codec settings as_of gzip dump w (record l.simulation { book = book })
          b) [
            | err e ↦ err e
            | ok t ↦ elim (load_last false "stream" b t.written (record l { simulation = t })) [
              | err e ↦ err e
              | ok next ↦
                  stream interval (some (save_book t.book))
                    (record next { session = asked (sleeps interval) next.session }) bs
            ]
          ]
  ]

-- The manifests that `reconcile` grades, oldest first: all, those of a reference, or the newest.
unfoldable pub graded {ℓ} : {A : Type ℓ} → Option String → Bool → List A → List A
graded (some batch_ref) all_batches manifests = manifests
graded none true manifests = manifests
graded none false [] = []
graded none false (m ∷ []) = m ∷ []
graded none false (m ∷ (n ∷ ms)) = graded none false (n ∷ ms)

unfoldable pub all_passed : List ReconciliationResult → Bool
unfolding passed
all_passed [] = true
all_passed (r ∷ rs) = passed r && all_passed rs

-- The exit code of `reconcile`, by the results of the manifests that it grades.
unfoldable pub reconcile_code : Bool → List ReconciliationResult → ℕ
unfolding all_passed
reconcile_code fail_on_mismatch results =
    if is_empty results then 1 else if not (all_passed results) && fail_on_mismatch then 1 else 0

-- `csv.QUOTE_MINIMAL`
unfoldable pub needs_quotes : String → Bool
needs_quotes String.[] = false
needs_quotes (String.◌∷◌ c s) =
    code c == b',' || code c == b'"' || code c == b'\n' || needs_quotes s

unfoldable pub double_quotes : String → String
double_quotes String.[] = ""
double_quotes (String.◌∷◌ c s) =
    let rest = String.◌∷◌ c (double_quotes s) in if code c == b'"' then String.◌∷◌ c rest else rest

unfoldable pub csv_field : String → String
unfolding needs_quotes double_quotes
csv_field s = if needs_quotes s then append "\"" (append (double_quotes s) "\"") else s

unfoldable pub csv_text : List (List String) → String
unfolding csv_field join
csv_text [] = ""
csv_text (row ∷ rows) = append (join "," (map csv_field row)) (append "\n" (csv_text rows))

unfoldable pub seed_text : SeedSpec → String
unfolding csv_text
seed_text spec = csv_text (spec.header ∷ spec.rows)

-- The seeds that are not as they are checked in; a file that is missing counts as empty.
unfoldable pub drifted : (String → Option String) → List SeedSpec → List String
unfolding seed_text
drifted read_text [] = []
drifted read_text (spec ∷ specs) =
    let rest = drifted read_text specs in
    let old : String = elim (read_text spec.filename) [ none ↦ "" | some t ↦ t ] in
    if seed_text spec == old then rest else spec.filename ∷ rest

-- `emit-seeds --check`
unfoldable pub check_seeds_code : (String → Option String) → List SeedSpec → ℕ
unfolding drifted
check_seeds_code read_text specs = if is_empty (drifted read_text specs) then 0 else 1

-- `reset-book`, once it is confirmed
unfoldable pub reset_book : Option Payload → Option Payload
reset_book stored = none
