-- ===== src/Machine/Evals.antt =====
-- crates/llmvm/src/vm.rs: the operations on texts, as functions of their operands.
use Prim.Native.String.{◌++◌, len}
use boruna.Prelude.Int.{pos}
use boruna.Bytecode.Value.{Value, bool, int, string}
use boruna.Machine.Platform.{Platform}
use boruna.Machine.Text.{str_contains, ends_with, chars, trim, parse_i64}
use boruna.Machine.Builtins.{
  Answer, float_or_none, int_or_error, int_or_none, int_or_zero, on_text, on_texts, strings,
}
use text.Mathlib.Text

unfoldable pub eval_concat : Value → Value → Answer
eval_concat = on_texts (λ s t. string (s ++ t))

unfoldable pub eval_parse_int : Value → Answer
eval_parse_int = on_text (λ s. int_or_zero (parse_i64 (trim s)))

unfoldable pub eval_try_parse_int : Value → Answer
eval_try_parse_int = on_text (λ s. int_or_error s (parse_i64 (trim s)))

unfoldable pub eval_str_contains : Value → Value → Answer
eval_str_contains = on_texts (λ s t. bool (str_contains s t))

unfoldable pub eval_str_starts_with : Value → Value → Answer
eval_str_starts_with = on_texts (λ s t. bool (Text.starts_with s t))

unfoldable pub eval_string_len : Value → Answer
eval_string_len = on_text (λ s. int (pos (len s)))

unfoldable pub eval_string_chars : Value → Answer
eval_string_chars = on_text (λ s. strings (chars s))

unfoldable pub eval_string_contains : Value → Value → Answer
eval_string_contains = on_texts (λ s t. bool (str_contains s t))

unfoldable pub eval_string_starts_with : Value → Value → Answer
eval_string_starts_with = on_texts (λ s t. bool (Text.starts_with s t))

unfoldable pub eval_string_ends_with : Value → Value → Answer
eval_string_ends_with = on_texts (λ s t. bool (ends_with s t))

unfoldable pub eval_string_to_upper : Platform → Value → Answer
eval_string_to_upper platform = on_text (λ s. string (platform.to_uppercase s))

unfoldable pub eval_string_to_lower : Platform → Value → Answer
eval_string_to_lower platform = on_text (λ s. string (platform.to_lowercase s))

unfoldable pub eval_string_trim : Value → Answer
eval_string_trim = on_text (λ s. string (trim s))

unfoldable pub eval_int_parse : Value → Answer
eval_int_parse = on_text (λ s. int_or_none (parse_i64 s))

unfoldable pub eval_float_parse : Platform → Value → Answer
eval_float_parse platform = on_text (λ s. float_or_none (platform.parse_float s))
