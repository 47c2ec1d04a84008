-- ===== src/Web/Contract/Refused.antt =====
-- Functions that a contract declares without inputs, in `class Contract` (src/Contract.cpp).
use web3cpp.Common.{ℕ, ◌≡◌, refl, none, List, [], ◌++◌, ok, ◌>>=◌}
use web3cpp.Common.Bytes.{codes}
use web3cpp.Web.Contract.{Contract, find_name, text_at, add_item, inputs_loop, close_function}
use web3cpp.Web.Contract.Call.{JsonItems, checked_types, call}
use web3cpp.Web.Errors.{ErrorState, set_code}
use web3cpp.Web.Platform.{Platform}
use web3cpp.Web.Texts.{same}

-- The entry of a function whose list of inputs is empty.
pub record IsPlainFunction (p : Platform) (item : p.Json) (name : List ℕ) : Type 0 where
  pub is_function : text_at p item (codes "type") ≡ ok (codes "function")
  pub named : text_at p item (codes "name") ≡ ok name
  pub inputs : p.Json
  pub inputs_found : p.at_or_null item (codes "inputs") ≡ ok inputs
  pub no_inputs : p.elements inputs ≡ []

call_unknown :
    (p : Platform) (j : JsonItems p) (c : Contract) (name : List ℕ) (arguments : p.Json)
    (err : ErrorState)
    → find_name c.methods name ≡ none
    → call p j c name arguments err ≡ ok ([], set_code err 17)
unfolding call checked_types
call_unknown p j c name arguments err missing = rw missing refl

-- A function that the interface declares without inputs, under a name that the contract does not
-- have yet, is read without failure and has no entry in the methods: every call of it sets the
-- code 17 and returns an empty text.
pub call-add_item_refused :
    (p : Platform) (j : JsonItems p) (item arguments : p.Json) (name : List ℕ) (c : Contract)
    (err : ErrorState)
    → IsPlainFunction p item name
    → find_name c.methods name ≡ none
    → (add_item p item c >>= λ after. call p j after name arguments err) ≡ ok ([], set_code err 17)
unfolding add_item inputs_loop close_function same
call-add_item_refused p j item arguments name c err plain missing = rw plain.is_function (
    rw plain.named (
      rw plain.inputs_found (
        rw plain.no_inputs (
          call_unknown p j (close_function p name c (name ++ codes "(", c.methods)) name arguments
            err missing))))
