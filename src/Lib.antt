-- ===== src/Lib.antt =====
-- SQL IDE: the parts of the program that decide things without a display or a database.
--
-- The code is Python. Each module here translates one file of sqlide/backend, function by function
-- and under the source's names; a name that a longer function gets for one of its branches or loops
-- is explained where it is declared. How the parts interact: the console and the MCP server split
-- scripts with SqlSplit, classify the statements with SqlRisk, which reads the same tokens, and the
-- MCP server refuses what Mcp.Guard does not admit. SqlFormat writes a statement out again from the
-- pieces of SqlSplit's lexer. The query builder renders a QueryModel, and prefills its joins from
-- Relations. The table designer plans the statements between two models of a table with TableModel.
-- The backup timer asks Backups.Schedule for the jobs that are due, from the runs that Backups.Jobs
-- keeps. The console asks for the values of what Placeholders finds before it runs a statement. A
-- workspace keeps its connections and, through the keyring, their passwords; TomlWrite writes its
-- files. The map draws the tiles that the loader of Tiles gives it.
--
--   Common            Boolean tests, lists and texts with the lemmas that the parts share
--   SqlSplit          sqlide/backend/sql_split.py: lex, tokens, split_statements, statement_at
--   SqlRisk           sqlide/backend/sql_risk.py: classify, changes_catalog, worst,
--                     confirmation_level
--   Mcp.Guard         sqlide/backend/mcp/guard.py: check_read_only
--   SqlFormat         sqlide/backend/sql_format.py: format_statement, with _refuse in SqlFormat, the
--                     state of _Writer in SqlFormat.Writer and its walk in SqlFormat.Walk
--   QueryModel        sqlide/backend/db/query_model.py: the dataclasses, _Renderer and _substitute
--                     in QueryModel.Render (its clauses in QueryModel.Render.Clauses),
--                     and in QueryModel.Flat folded_group and unfold_group
--   Relations         sqlide/backend/db/relations.py: _grouped, constraints, outgoing_targets,
--                     incoming_targets
--   Backups.Jobs      sqlide/backend/backups/jobs.py: BackupStore and its records
--   Backups.Schedule  sqlide/backend/backups/schedule.py: next_due, due_jobs, _parse_at
--   Placeholders      sqlide/backend/placeholders.py: find_placeholders, substitute, as_literal
--   TableModel        sqlide/backend/db/table_model.py: the model of a table, what is read off it in
--                     TableModel.Read, its rendering in TableModel.Sql and TableModel.Create, what
--                     is compared in TableModel.Diff,
--                     the planner in TableModel.Rebuild, TableModel.Alter and TableModel.Plan, and the
--                     questions asked before in TableModel.Preflight
--   Tiles             sqlide/backend/tiles.py: TileSource, TileCache and TileLoader
--   TomlWrite         sqlide/backend/tomlwrite.py: value, key and dumps, and merge in TomlWrite.Merge
--   Workspaces        sqlide/backend/workspaces.py and secrets.py: the connections of a workspace
--                     with their passwords, and _connection_edited of sqlide/frontend/window.py
--
-- A text is a list of code points. What Python knows of a character (isspace, isalnum, isdigit,
-- isalpha, upper, lower) is the parameter `CharTable`, and the laws of it that the scanners use are
-- named in `IsPython`; `ascii` is a table that satisfies them. A time is a number of microseconds
-- since datetime.min. An exception is a value of a result type. The state of a class is a record
-- that each operation takes and gives back.
--
-- Loops on fuel: the lexer has as much as the text is long, since each cut ends behind its start;
-- the splitter has one more than the text is long, since each step moves forward; the formatter has
-- as much as there are pieces, since each step takes one; the search for the next slot has eight
-- rounds, since a slot of the week is at most a week and a day away; the digits of n need at most n;
-- the scan for placeholders has one more than the statement is long, since each round moves forward;
-- the search for a free name has one more than there are names, since no two candidates are equal.
--
-- The keyring package is a parameter, `Keyring`, with what it documents of its functions in
-- `IsKeyring`. What `float` accepts is a parameter of TableModel; the file system, the clock and the
-- network are parameters of Tiles, and str.splitlines is one of TomlWrite.
--
-- Not modelled: the GTK frontend, the database connectors and the drivers behind them, systemd,
-- reading and writing of files, processes of dumps and restores, the overflow of datetime.max, the
-- map projection, which is floating-point arithmetic, the JSON forms of the models, and `format_sql`
-- around `format_statement`.
pub mod Backups
pub mod Common
pub mod Mcp
pub mod Placeholders
pub mod QueryModel
pub mod Relations
pub mod SqlFormat
pub mod SqlRisk
pub mod SqlSplit
pub mod TableModel
pub mod Tiles
pub mod TomlWrite
pub mod Workspaces
