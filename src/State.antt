-- ===== src/State.antt =====
-- The state of pkg/rt/akx_rt.c, the nuclei that it knows by name, and what it calls. The scopes
-- (`ak_context_t`), the builtin map and `akx_cell_unwrap_quoted` are parameters, the fields of
-- `Env`.
use akx.Base.{ℕ, Bool, List, Option}
use akx.Base.Text.{Bytes}
use akx.Cell.{CellPtr}
use akx.System.{System, SystemState}

-- `akx_parse_error_t`, with the offset of its location where it has one.
pub record RtError : Type 0 where
  pub location : Option ℕ
  pub message : Bytes

-- `akx_lambda_context_t`
pub record LambdaContext : Type 0 where
  pub param_names : List Bytes
  pub body : CellPtr
  pub result : CellPtr

-- The nuclei of nucleus/manifest.txt.
pub data Builtin : Type 0 where
  if_nucleus let_nucleus set_nucleus begin_nucleus loop_nucleus lambda_nucleus : Builtin
  defined_nucleus cons_nucleus car_nucleus cdr_nucleus : Builtin
  add_nucleus sub_nucleus mul_nucleus div_nucleus mod_nucleus math_eq_nucleus : Builtin
  eq_nucleus neq_nucleus lt_nucleus lte_nucleus gt_nucleus gte_nucleus : Builtin
  and_nucleus or_nucleus not_nucleus : Builtin
  is_nil_nucleus is_int_nucleus is_real_nucleus is_lambda_nucleus : Builtin
  is_str_nucleus is_quote_nucleus is_sym_nucleus : Builtin
  concat_nucleus split_nucleus iter_nucleus putf_nucleus : Builtin
  real_add_nucleus real_sub_nucleus real_mul_nucleus real_div_nucleus real_mod_nucleus : Builtin
  real_eq_nucleus real_neq_nucleus real_lt_nucleus real_lte_nucleus : Builtin
  real_gt_nucleus real_gte_nucleus : Builtin
  real_and_nucleus real_or_nucleus real_not_nucleus : Builtin
  assert_true_nucleus assert_false_nucleus assert_eq_nucleus assert_ne_nucleus : Builtin
  import_nucleus exec_nucleus scanf_nucleus : Builtin
  exists_nucleus is_file_nucleus is_dir_nucleus delete_nucleus mkdir_nucleus rmdir_nucleus : Builtin
  stat_nucleus list_dir_nucleus read_file_nucleus write_file_nucleus rename_nucleus : Builtin
  path_join_nucleus dirname_nucleus basename_nucleus : Builtin
  open_nucleus close_nucleus seek_nucleus tell_nucleus file_write_nucleus file_read_nucleus :
      Builtin
  os_chdir_nucleus os_cwd_nucleus os_args_nucleus os_env_nucleus : Builtin

-- `akx_runtime_ctx_t` with its `akx_rt_error_ctx_t`, over a type of scope chains. `lambdas` holds
-- the captured contexts, by the number that stands for the lambda.
pub record Runtime (Ctx : Type 0) : Type 0 where
  pub error_count : ℕ
  pub errors : List RtError
  pub current_context : Ctx
  pub current_module_name : Option Bytes
  pub in_tail_position : Bool
  pub lambdas : List LambdaContext
  -- what was written to the standard output
  pub output : Bytes
  -- `script_argv`, of `script_argc` texts
  pub script_args : List Bytes
  pub system : SystemState

-- What the runtime calls and does not implement.
pub record Env (Ctx : Type 0) : Type 0 where
  -- `ak_context_push`, `ak_context_pop`, `ak_context_set`, `ak_context_get`
  pub push : Ctx → Ctx
  pub pop : Ctx → Ctx
  pub set : Ctx → Bytes → CellPtr → Ctx
  pub get : Ctx → Bytes → CellPtr
  -- `ak_context_has_local`, `ak_context_has`
  pub has_local : Ctx → Bytes → Bool
  pub has : Ctx → Bytes → Bool
  -- `ak_context_set` on `ak_context_get_containing_context`
  pub assign : Ctx → Bytes → CellPtr → Ctx
  -- the entry of `rt->builtins`
  pub builtin : Bytes → Option Builtin
  -- `akx_cell_unwrap_quoted` on the text of the quoted cell
  pub unwrap : Bytes → CellPtr
  -- `ak_lambda_free` on a lambda with this context: how the contexts read from then on, where one
  -- that was freed may read as anything
  pub lambda_free : ℕ → List LambdaContext → List LambdaContext
  -- whether two `ak_lambda_t *` with these contexts are one pointer
  pub same_lambda : ℕ → ℕ → Bool
  -- `==` and `<` on doubles
  pub real_eq : ℕ → ℕ → Bool
  pub real_lt : ℕ → ℕ → Bool
  pub real_le : ℕ → ℕ → Bool
  -- `+`, `-`, `*`, `/` and `fmod` on doubles
  pub real_plus : ℕ → ℕ → ℕ
  pub real_minus : ℕ → ℕ → ℕ
  pub real_times : ℕ → ℕ → ℕ
  pub real_over : ℕ → ℕ → ℕ
  pub real_fmod : ℕ → ℕ → ℕ
  -- `fabs(x) < 1e-10` and `fabs(x) > 1e-10`
  pub is_tiny : ℕ → Bool
  pub is_sizable : ℕ → Bool
  -- `%f` of a double
  pub format_real : ℕ → Bytes
  -- `ak_context_set` and `ak_context_get` with the address of a file handle, where NULL is none; a
  -- name that is bound to one is not read as a cell
  pub set_handle : Ctx → Bytes → Option ℕ → Ctx
  pub get_handle : Ctx → Bytes → Option ℕ
  -- `akx_cell_parse_buffer`: the cells, and the messages of the errors
  pub parse : Bytes → List CellPtr × List Bytes
  -- the C library and the operating system
  pub sys : System
