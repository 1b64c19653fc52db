-- ===== src/Error.antt =====
-- error.h, and `std::error_condition` as the source uses it: a number and a category.
use curlion.Common.{ℕ}

pub data ErrorCategory : Type 0 where
  generic curl_multi_error_category curl_form_error_category : ErrorCategory

pub record ErrorCondition : Type 0 where
  pub value : ℕ
  pub category : ErrorCategory

-- A default `std::error_condition`.
abbrev pub no_error : ErrorCondition
no_error = record { value = 0; category = generic }

abbrev pub assign : ℕ → ErrorCategory → ErrorCondition
assign value category = record { value = value; category = category }
