-- ===== src/Lib.antt =====
-- Bun is an SQL-first ORM for Go: query builders, models and migrations over database/sql, with one
-- dialect for each database. This library models the parts that turn values and calls of the query
-- builders into SQL text and read values back from text, and the runs of migrations.
--
-- How the parts interact. A query is text with placeholders; the formatter (schema/formatter.go)
-- scans it with the text parser (internal/parser/parser.go) and puts each argument where its
-- placeholder stands, written by the appenders of the dialect (schema/dialect.go,
-- dialect/append.go). The driver for PostgreSQL has a formatter of its own
-- (driver/pgdriver/format.go). The PostgreSQL dialect adds appenders for arrays and hstore values
-- (dialect/pgdialect/append.go) and parsers that read the text which the database returns
-- (stream_parser.go, array_parser.go, hstore_parser.go, array_scan.go, hstore_scan.go). The query
-- builders (query_base.go and query_select.go, query_insert.go, query_update.go, query_delete.go,
-- query_values.go) put a query together clause by clause, with the formatter for its pieces. The migrator
-- (migrate/migrator.go) reads and changes two tables through queries. The tags of struct fields, from
-- which tables are built, have a parser of their own (internal/tagparser/parser.go).
--
-- Files, and the sources they model:
--   Common              tests on numbers, lists, UTF-8 as Go ranges over a string, hexadecimal and
--                       decimal digits, pairs of a value and an error
--   Literal             no code of the program: a reader of SQL string literals in standard form,
--                       against which the appenders are stated
--   Internal/Parser     internal/parser/parser.go: ReadSep, ReadIdentifier, ReadNumber and others; a
--                       parser is the bytes that it has not read
--   Internal/TagParser  internal/tagparser/parser.go: Parse, Option and the loops of the parser;
--                       TagParser/RoundTrip prints tags and parses them, TagParser/Options is about
--                       lookups in them, and TagParser/Progress about the loops' end
--   Internal/Underscore internal/underscore.go: Underscore, CamelCased, ToExported;
--                       Underscore/Words is about names made of words
--   Dialect             dialect/append.go: AppendIdent, AppendFloat64 and others; Dialect/Ident is a
--                       reader of quoted names, and what it finds
--   Schema/BaseDialect  schema/dialect.go: AppendString, AppendBytes, AppendJSON, AppendTime, ...;
--                       Schema/Literals is about the literals that they write
--   Schema/Formatter    schema/formatter.go: AppendQuery, FormatQuery, append, WithArg, WithNamedArg,
--                       namedArgList; Schema/Template, Schema/Arguments and Schema/Placeholders
--                       hold queries made of texts and marks, and what is put out for them;
--                       Schema/Progress is about the loop's end
--   PgDialect/Append    dialect/pgdialect/append.go: arrayAppend, the slices and maps
--   PgDialect/Parser    stream_parser.go and array_parser.go; PgDialect/Scan is array_scan.go, and
--                       PgDialect/Hstore hstore_parser.go and hstore_scan.go. ArrayText, Escape,
--                       HstoreText, RoundTrip and HstoreRoundTrip read back what was written;
--                       Progress and HstoreProgress are about the end of the loops
--   Migrate/Migration   migrate/migration.go: the slices of migrations and their order
--   Migrate/Store       what the migrator asks of the database, with the laws it relies on
--   Migrate/Migrator    migrate/migrator.go: migrationsWithStatus, MarkApplied, MarkUnapplied, Lock,
--                       Unlock, Migrate, Rollback; Runs, Rounds and Loop are about the loop of Migrate, Rows
--                       and Again about the table of migrations, Status about what counts as applied,
--                       Locks about the table of locks
--   PgDriver/Format     driver/pgdriver/format.go: formatQuery, appendArg; PgDriver/Queries holds
--                       queries made of bytes, literals and marks, and what is put out for them;
--                       PgDriver/Progress is about the loop's end
--   Query/Fragment      schema/sqlfmt.go: SafeQuery, UnsafeIdent, QueryWithArgs.AppendQuery; the loop that
--                       all builders have over a list of pieces
--   Query/Base          query_base.go: errors, soft delete, WITH, tables, columns, named arguments
--   Query/Where         query_base.go: addWhere, addWhereGroup, appendWhere, mustAppendWhere, WherePK;
--                       Where/Tree holds the calls as a tree of conditions and a reader of the clause,
--                       Where/Text the text that is written for a tree, Where/Truth what a row meets,
--                       and Where/SoftDelete the whole clause; Where/Conditions and Where/Balance are
--                       about its parentheses
--   Query/IndexHints    query_base.go: addUseIndex and the others, appendIndexHints
--   Query/Values        query_base.go: excludeColumn, getFields, addReturningField, addValue, appendSet;
--                       Query/Chosen is addWhereCols
--   Query/Select        query_select.go: AppendQuery of a SELECT and of the queries that count or ask
--                       whether rows exist; Select/Order and Select/Limit are Order and Limit,
--                       and Select/Sorts is about the text of ORDER BY
--   Query/Balance       no code of the program: the depth of a text in parentheses. The files named
--                       Balance are about the clauses, and Select/Depth is about the whole SELECT
--   Query/Update        query_update.go: AppendQuery, mustAppendSet, appendSetStruct;
--                       Update/Assignments is about what SET assigns
--   Query/Delete        query_delete.go: AppendQuery; Query/Guard is about deletions without a WHERE
--   Query/Insert        query_insert.go: getFields, appendStructValues, and in Insert/Statement
--                       AppendQuery and appendOn; Insert/Width is about columns and rows
--   Query/Definition    query_table_create.go, query_index_create.go, query_table_drop.go,
--                       query_index_drop.go, query_column_add.go, query_column_drop.go,
--                       query_table_truncate.go: AppendQuery; Definition/Balance is about CREATE TABLE
--   Query/Rows          query_values.go: AppendColumns and AppendQuery
--   Query/Maps          model_map.go and model_map_slice.go: the text of maps
--   Query/Join          no code of the program: texts with a comma between two
--   PgDriver/Wire       driver/pgdriver/write_buffer.go, and readInt32, readString, readMessageType of
--                       proto.go; Wire/Framing is about messages and their lengths
--   PgDriver/Messages   proto.go: writeStartup, writeQuery, writeBindExecute and the other writers;
--                       Messages/RoundTrip, Messages/Bind and Messages/Statements take the messages
--                       apart again
--   PgDriver/Replies    proto.go: readError, readQuery, readExtQuery; Replies/Tags and Replies/Reading are
--                       about what they make of the replies of a server, Replies/Progress about the
--                       loops' end
-- The files named Tests, WriteTests, WireTests, DefinitionTests and Sample hold runs on concrete inputs.
--
-- How state and operations correspond. A Go string or []byte is a list of numbers; the functions
-- that append to a buffer take it and return it. A method that moves a parser returns what is left
-- to read. A pair (value, error) is a Result, io.EOF included. The database is a state that each
-- statement takes and returns, with whether it succeeded; a failed statement changes nothing. A builder's AppendQuery is a function
-- from the text so far to the text behind, or an error; where it changes the query (DELETE, and the
-- fields to return of INSERT), the query is a result too. A panic is an error of its own. A connection is the stream of bytes that it still
-- gives, with its end; a reader returns what it has read and what is left.
--
-- Fuel. The loops of the two formatters and of the tag parser take one unit for each byte of the text, the loops of the
-- decoders one more than the bytes of the text, and the digits of a number n take n; the loops on
-- replies take one unit more than the bytes of the stream. The driver's reader has a buffer of
-- 4096 bytes, and a text that does not end in it is an error. Each round
-- reads at least one byte, and the theorems on the ends of the loops say that no run is cut short.
--
-- Parameters. What is not in this repository is an argument: the printer of finite floats
-- (strconv), the formatted text of times, what another argument of a query appends, the database and
-- the functions of migrations. For the builders: the features of the dialect, what a field of a struct
-- appends and whether it is nil or zero (reflect), the queries behind WITH, UNION and joined relations by
-- what they append.
--
-- Not modelled. The code that works through reflect (models, scanning, fields of a struct), since it
-- inspects Go types at run time; connections and hooks; the other
-- dialects; logins, rows and notifications of the PostgreSQL driver; glue to other libraries. The order of equal names in a sort is open in Go and
-- fixed here. Integers of the program that are ids of rows and groups are not negative here.
pub mod Common
pub mod Literal
pub mod Internal
pub mod Dialect
pub mod PgDialect
pub mod Schema
pub mod Migrate
pub mod PgDriver
pub mod Query
