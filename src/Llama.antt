-- ===== src/Llama.antt =====
-- The dialogs that start a llama.cpp session, Ui/llama-start.js, and that preview one,
-- Ui/llama-start-plan.js. The inputs that both read; the dialogs are Llama/Start and Llama/Plan.
pub mod Laws
pub mod Start
pub mod Plan
pub mod Preview
pub mod Safety
pub mod Shown
mod Tests
use sql_server_lab.Prelude.{
  ℕ, ◌+◌, ◌-◌, ◌*◌, String, Bool, true, false, not, ◌&&◌, ◌||◌, List, [], ◌∷◌, Option, none, some,
  leb, includes, str_eq, require, ◌>>=◌, ◌>>◌,
}
use sql_server_lab.Js.{codes, units}
use sql_server_lab.Js.Patterns.{digits_between}

-- The controls that both dialogs have.
pub record Common : Type 0 where
  pub runtime : String
  pub backend : String
  pub accelerator : String
  pub model : String
  pub dimension : String
  pub pooling : String
  pub port : String
  pub timeout : String
  pub lease : String
  pub context : String

-- The numbers among the inputs, after `Number(…)`.
pub record Numbers : Type 0 where
  pub dimension : ℕ
  pub port : ℕ
  pub timeout : ℕ
  pub lease : ℕ
  pub context : ℕ

-- `Number` of a text of digits.
abbrev pub number_from : ℕ → List ℕ → ℕ
number_from n [] = n
number_from n (c ∷ cs) = number_from (n * 10 + (c - b'0')) cs

-- One turn of the loop over the limits.
unfoldable pub read_limited : ℕ → ℕ → String → Option ℕ
read_limited lo hi text = do
  require (digits_between 1 4 (codes text))
  require (leb lo (number_from 0 (codes text)) && leb (number_from 0 (codes text)) hi)
  some (number_from 0 (codes text))

-- The loop over llamaStartLimits, and the comparison behind it.
unfoldable pub read_numbers : Common → Option Numbers
read_numbers form = do
  dimension ← read_limited 1 1998 form.dimension
  port ← read_limited 1024 65535 form.port
  timeout ← read_limited 1 600 form.timeout
  lease ← read_limited 30 3600 form.lease
  context ← read_limited 32 8192 form.context
  require (not (leb lease timeout))
  some (record {
    dimension = dimension;
    port = port;
    timeout = timeout;
    lease = lease;
    context = context;
  })

-- The test of the three choices.
unfoldable pub valid_choices : Common → Bool
valid_choices form =
    includes ("LlamaCppCuda" ∷ "LlamaCppOpenVino" ∷ []) form.backend
    && includes ("CPU" ∷ "GPU" ∷ "NPU" ∷ []) form.accelerator
    && includes ("mean" ∷ "cls" ∷ "last" ∷ []) form.pooling
    && not (str_eq form.backend "LlamaCppCuda" && str_eq form.accelerator "NPU")

-- `text.length <= 4096`.
unfoldable pub is_short : String → Bool
is_short text = leb (units (codes text)) 4096

abbrev pub cleared : Common
cleared = record {
  runtime = "";
  backend = "";
  accelerator = "";
  model = "";
  dimension = "";
  pooling = "";
  port = "";
  timeout = "";
  lease = "";
  context = "";
}

-- What opening either dialog puts into the controls.
abbrev pub defaults : Common
defaults = record cleared {
  backend = "LlamaCppCuda";
  accelerator = "CPU";
  pooling = "mean";
  dimension = "768";
  port = "19435";
  timeout = "120";
  lease = "900";
  context = "512";
}
