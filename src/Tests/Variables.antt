-- ===== src/Tests/Variables.antt =====
-- The theorems on ngxpp/NgxVariable.hpp: variable 3 of a request is set to five characters.
use ngx_cpp_dev.Base.{ℕ, true, false}
use ngx_cpp_dev.Variable.{Definition, VariableValue, Values}

abbrev unset_value : VariableValue
unset_value = record {
  len = 0;
  data_ptr = 0;
  valid = false;
  not_found = true;
  no_cacheable = false;
}

abbrev values : Values ℕ
values = record { variables = λ i. unset_value; others = 7 }

abbrev definition : Definition
definition = record { changeable = true; indexed = true; set_handler = false; index = 3 }
