-- ===== src/Lib.antt =====
-- A verification library for ARKsh, an object-oriented shell in C. It models parts of the shell's
-- core as functions over byte lists and records, and proves what makes each part correct.
--
-- How the shell works: a command line goes through the lexer (`src/lexer.c`) to the parser
-- (`src/parser.c`) and the executor (`src/executor.c`), which expands words (`src/expand.c`), runs
-- commands and object pipelines, and takes its temporary memory from scratch arenas
-- (`src/arena.c`). Values and file objects live in `src/object.c`. The parts modelled here are
-- those whose behaviour does not rest on the operating system.
--
-- - Base: numbers, Boolean tests, lists, bit operations, and C strings as the lists of their bytes
--   without the terminating zero. `max_token` is ARKSH_MAX_TOKEN and `max_output` is
--   ARKSH_MAX_OUTPUT of `include/arksh/object.h`.
-- - Permissions: `format_permission_octal`, `format_permission_rwx`, `parse_octal_permissions`,
--   `parse_rwx_permissions` and `parse_permissions_spec` of `src/object.c`. A mode is a number; the
--   result `none` is the status 1. RoundTrip and Accepts hold the proofs.
-- - Base64: `apply_base64_encode_stage` and `apply_base64_decode_stage` of `src/executor.c`, with
--   the table, the groups of four, the padding and the limits of the output buffer.
-- - Glob: `glob_match_full`, `glob_match_prefix`, `apply_suffix_trim` and `apply_prefix_trim` of
--   `src/expand.c`. Glob/Pattern has the matching relation that they are measured against.
-- - Arena: `src/arena.c`, all of it, where `sizeof(max_align_t)` is 32 and the header of a chunk
--   takes 24 bytes. The linked list of chunks is a list and a pointer to a chunk is its position;
--   `malloc` and `calloc` are parameters. Arena/Layout says when chunks are valid, Arena/Alloc,
--   Arena/Grow and Arena/Calls what an allocation gives and keeps, Arena/Fuel when it returns,
--   Arena/Given when it is not NULL, and Arena/Anchor with Arena/Frames what a frame restores.
-- - Lexer: `src/lexer.c`, all but the table of kind names. `line + *index` is the list of the
--   characters that are left. Lexer/Chars has what begins an operator, Lexer/Scan the scanners of
--   words and substitutions, Lexer/Line the loop of `arksh_lex_line` with its flags. Moves, Steps
--   and Words are about the scanners; Operators, Tiles, Turns and Covers about the whole line.
-- - Path: `normalize_path` of `src/platform.c` with its helpers, as compiled where the separator is
--   `/`. The array of segments is a list that has the last segment first. Path/Normal is about the
--   segments that are left, Path/Stable about reading them again, Path/Written about the output.
-- - Arith: the arithmetic evaluator of `src/expand.c`, from `arith_skip_ws` to `evaluate_arith`.
--   `ctx->expr + ctx->pos` is the list of the characters that are left, `ctx->has_error` is an
--   `err`. Arith/Word has the operators on 64-bit numbers, Arith/Number `strtoll`, Arith/Operators
--   and Arith/Parse the recursive descent, over the shell's variables as a parameter. Arith/Expr
--   has trees and how they are spelled, Sense what each operator means and Denotation the value of
--   a tree, both without the evaluator; Tokens, Levels, Numerals, Operands, Marks,
--   Whole and Correct prove that the one is what the other evaluates to; Fine, Nested, Settled,
--   Factors and Ends that every text is read to an end.
-- - Json: the JSON printer and parser of `src/object.c`, from `append_char` to
--   `arksh_value_parse_json`, with `arksh_value_map_set`. Json.antt has the values, and as a record
--   of parameters the type `double` with the conversions that `snprintf`, `strtod` and `isnan` make;
--   Json/Text has strings and escapes, Json/Print `value_to_json_text`, Json/Parse the parser. A
--   cursor is the list of the characters that are left; an item is the value that it was set from.
--   Matrices are left out, and messages of errors are constructors without the offset. Written and
--   Prints say what is printed, Strings, Readable, Elements, Lists, Maps and RoundTrip what is read.
-- - Scope: the variables of `src/shell.c` with their scope frames: `lookup_visible_var`,
--   `arksh_shell_get_var`, `arksh_shell_set_var`, `arksh_shell_unset_var`, `sync_visible_var_env`
--   and the push and pop of a frame. Bindings and positional parameters of a frame are left out, and
--   the process environment is a parameter. Scope/View and Scope/Unset are about
--   look-ups after an assignment and an unset, Scope/Local about what a frame keeps to itself.
-- - Control: the control flow of `src/executor.c`: `execute_command_list`, `execute_if_command`, the
--   commands `while`, `until` and `for`, `resolve_loop_control` and `append_output_segment`, and the
--   signals of `break` and `continue` of `src/shell.c`. Running a line and evaluating a condition
--   come back to the executor, so they are fields of a record that the commands take; of the shell,
--   the counters and the signal are fields and the rest is a parameter. Control/Chain has what a
--   chain of `&&` and `||` does and AndOr proves it of lists, Nest about `break`, Ends about when a loop ends, Balance and Restores about the counters.
-- - Case: the patterns of `case` in `src/executor.c`: `shell_pattern_matches` and
--   `case_char_class_matches`, where `char` is signed. Case/Pattern says what patterns mean, Classes
--   and Matches prove it.
-- - Classes: the classes of `src/shell.c`: `find_class_entry`, the searches for properties, methods
--   and bases, `populate_instance_defaults_recursive` and `arksh_shell_set_class` without the texts
--   of classes and of errors. What reading a body and evaluating its expressions gives is an
--   argument, which may change the table, as an expression that defines a class does; so is what a
--   value becomes as an item of a map (`arksh_value_item_set_from_value` and back in
--   `src/object.c`). Classes/Define is about the table, Descent and Depth about bases, Inherit about
--   properties.
-- - Fields: `apply_ifs_splitting` of `src/expand.c`, over characters with their split flags.
--   Fields/Segments says what the fields of a text are.
--
-- Loops and fuel. A loop that takes its list from the front is structural recursion. The loops of
-- the lexer take the number of characters left and one more as fuel, since each turn takes at
-- least one character. The loop of the allocator takes one more than the chunks from the current
-- one on, or one where it begins in the first chunk, since a chunk that was just allocated has
-- room. The evaluator takes one more than the characters of the expression, for the parentheses
-- and nested expansions that may be open, and each of its loops one more than the characters left.
-- The loops of the JSON parser take the characters left and one more; its nesting is bounded by
-- JSON_MAX_DEPTH, which the model counts down.
-- A `while` may run for ever; its fuel bounds the turns, and Control/Ends gives a bound for it.
-- The matcher of `case` takes one more than the characters of the pattern, and a class in it one for
-- each of its characters.
-- The searches along the bases of a class take 33 levels, the depths from 0 to ARKSH_MAX_CLASSES.
-- The error `out_of_fuel` and the result `none` of the allocator stand for fuel that ran
-- out.
--
-- Machine integers. `size_t` has 64 bits; the arena writes out where its sums and products wrap.
-- A `long long` of the evaluator is its 64-bit pattern in two's complement, whose operators wrap
-- as they do where the compiler does not use that signed overflow is undefined; LLONG_MIN / -1,
-- where the process ends by SIGFPE, is the error `trapped`.
-- Elsewhere lengths are bounded by buffers of 128 to 8192 bytes, so nothing wraps.
--
-- Assumptions. A block that `malloc` returns lies above the first 16 bytes and inside the address
-- space, and meets no block that is live. Arguments of the modelled functions are not NULL, and the
-- buffers that they write have the sizes that their callers in the repository pass.
--
-- Not modelled: the parser, the executor's processes, redirections, object stages and remaining
-- compound commands, the rest of word expansion, objects and their properties, the shell's functions, instances of classes, jobs and builtins, the
-- rest of the platform layer, the line editor, the prompt, plugins and `main`. Much of these is
-- calls of the operating system; their own logic is independent of the parts above.
pub mod Base
pub mod Permissions
pub mod Base64
pub mod Glob
pub mod Arena
pub mod Lexer
pub mod Path
pub mod Arith
pub mod Json
pub mod Scope
pub mod Control
pub mod Case
pub mod Classes
pub mod Fields
