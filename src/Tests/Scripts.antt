-- ===== src/Tests/Scripts.antt =====
-- A script with a comment, a literal and a dollar-quoted body, each with a semicolon in it.
use snowflake_trade_pipeline.Prelude.{
  String, ◌+◌, Bool, List, ◌==◌, nat_eq, length, false, ◌≡◌, refl, [], ◌∷◌, map, keep,
}
use snowflake_trade_pipeline.Deploy.Apply.{send, deploy, not_started, IsDeployed, deploy-IsDeployed}
use snowflake_trade_pipeline.Deploy.{
  Statement, split_statements, scan, at_start, is_executable, take_one, take_two, emit, takes_two,
  mode_one, mode_two, ends_statement, count_line, plain, dollar_quote,
}
use snowflake_trade_pipeline.Deploy.Texts.{
  append, strip, strip_left, strip_right, is_space, drop_line_comments, drop_line,
  drop_block_comments, drop_block, is_closed,
}
use snowflake_trade_pipeline.Deploy.Quotes.{quoted, all_inert, starts_apart, chunks-quoted}
use snowflake_trade_pipeline.Deploy.Chunks.{chunks, rejoin, pieces, split_statements-pieces}
use snowflake_trade_pipeline.Deploy.Numbers.{IsNumbered, split_statements-IsNumbered}

abbrev script : String
script = "-- a;b\nselect ';';\n/* ; */;\n call $$ x; y $$ "

script_statements :
    split_statements script
    ≡ record { sql = "-- a;b\nselect ';'"; index = 1; line = 1 }
      ∷ record { sql = "call $$ x; y $$"; index = 2; line = 3 }
      ∷ []
unfolding split_statements scan emit take_one take_two takes_two mode_one mode_two ends_statement
    count_line is_executable strip strip_left strip_right is_space drop_line_comments drop_line
    drop_block_comments drop_block is_closed
script_statements = refl

split_statements-pieces_example :
    (rejoin (pieces script) ≡ String.◌∷◌ ";" script)
    × (map (λ t. t.sql) (split_statements script) ≡ keep is_executable (map strip (pieces script)))
split_statements-pieces_example = split_statements-pieces script

split_statements-IsNumbered_example :
    IsNumbered 1 1 (scan at_start script).statement_start_line (split_statements script)
split_statements-IsNumbered_example = split_statements-IsNumbered script

-- A comment that holds `--` is taken for SQL, since the line comments are dropped first.
comment_kept : map (λ t. t.sql) (split_statements "/* see -- */;") ≡ "/* see -- */" ∷ []
unfolding split_statements scan emit take_one take_two takes_two mode_one mode_two ends_statement
    count_line is_executable strip strip_left strip_right is_space drop_line_comments drop_line
    drop_block_comments drop_block is_closed
comment_kept = refl

chunks-quoted_example :
    chunks plain "a" (append (quoted dollar_quote "x; y") "; b")
    ≡ chunks plain (append "a" (quoted dollar_quote "x; y")) "; b"
unfolding all_inert starts_apart
chunks-quoted_example = chunks-quoted dollar_quote "a" "x; y" "; b" (λ e. cc) refl refl

-- The warehouse refuses the second statement.
abbrev accepts : List Statement → Statement → Bool
accepts before s = s.index == 1

abbrev plan : List Statement
plan =
    record { sql = "select 1"; index = 1; line = 1 }
    ∷ record { sql = "select x"; index = 2; line = 2 }
    ∷ record { sql = "select 3"; index = 3; line = 3 }
    ∷ []

deploy-IsDeployed_example : IsDeployed accepts false plan (deploy accepts false plan not_started)
deploy-IsDeployed_example = deploy-IsDeployed accepts false plan

stops_at_the_second :
    (deploy accepts false plan not_started).applied
      + length (deploy accepts false plan not_started).sent
    ≡ 3
unfolding deploy send
stops_at_the_second = refl
