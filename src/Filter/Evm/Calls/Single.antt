-- ===== src/Filter/Evm/Calls/Single.antt =====
-- What `find_matching_functions_for_transaction` (src/services/filter/filters/evm/filter.rs) adds.
use openzeppelin_monitor.Prelude.{
  ◌≡◌, refl, ℕ, ◌≤◌, List, [], ◌∷◌, Option, none, some, String, Bool, true, false, is_empty, find,
  find-Found, leb, length, map, take, arith, All, All-append, if◌then◌else◌,
}
use mathlib.Core.List.{Memᴰ}
use openzeppelin_monitor.Models.Monitor.{FunctionCondition, Monitor, AddressWithSpec}
use openzeppelin_monitor.Models.Evm.{Transaction, MatchParamEntry}
use openzeppelin_monitor.Filter.Evm.{Platform}
use openzeppelin_monitor.Filter.Evm.Abi.{AbiItem, JsonAbi, Alloy, DynSolValue, decoded_inputs}
use openzeppelin_monitor.Filter.Evm.Helpers.{are_same_signature, are_same_address}
use openzeppelin_monitor.Filter.Evm.Conditions.{h160_to_string, holds, evaluate_expression}
use openzeppelin_monitor.Filter.Evm.Conditions.FirstMatch.{expression_holds}
use openzeppelin_monitor.Filter.Evm.Calls.{
  Calls, drop, bytes_eq, signature_of, params_of, push_call, try_call, try_decoded, check_functions,
  check_selected, check_contract, check_spec, is_called, check_address,
  find_matching_functions_for_transaction,
}

bytes_eq-eq : (xs ys : List ℕ) → bytes_eq xs ys ≡ true → xs ≡ ys
bytes_eq-eq [] [] h = refl
bytes_eq-eq [] (y ∷ ys) h = absurd (cc)
bytes_eq-eq (x ∷ xs) [] h = absurd (cc)
bytes_eq-eq (x ∷ xs) (y ∷ ys) h =
    let same : x ≡ y = ground (arith, h) in
    let rest : xs ≡ ys = bytes_eq-eq xs ys (ground (arith, h)) in cc

leb-≤ : (m n : ℕ) → leb m n ≡ true → m ≤ n
leb-≤ m n h = ground (arith, h)

module _ (platform : Platform) (alloy : Alloy) (specs : List (String × String)) (tx : Transaction)
    (monitor : Monitor) where
  -- The function that the transaction calls: its receiver is a monitored address, for which there is
  -- an interface, in which the first four bytes of the input select the function.
  pub record IsCalled (f : AbiItem) : Type 0 where
    pub to : String
    pub has_to : tx.to ≡ some to
    pub addr : AddressWithSpec
    pub monitored : Memᴰ addr monitor.addresses
    pub is_receiver : are_same_address platform addr.address (h160_to_string to) ≡ true
    pub spec : String × String
    pub listed : Memᴰ spec specs
    pub of_addr : are_same_address platform spec.0 addr.address ≡ true
    pub contract : JsonAbi
    pub parsed : alloy.parse_abi spec.1 ≡ some contract
    pub declared : Memᴰ f contract.functions
    pub long : 4 ≤ length tx.input
    pub selected : f.selector ≡ take 4 tx.input

  -- A condition of the list asks for the called function, by its signature and with an expression that
  -- holds of the decoded arguments of the call.
  pub record Asks (conditions : List FunctionCondition) (f : AbiItem) (expression : Option String)
      (params : List MatchParamEntry) : Type 0 where
    pub called : IsCalled f
    pub condition : FunctionCondition
    pub listed : Memᴰ condition conditions
    pub same_signature : are_same_signature platform condition.signature (signature_of f) ≡ true
    pub same_expression : condition.expression ≡ expression
    pub decoded : DynSolValue
    pub decodes :
        alloy.abi_decode_params (map (λ p. p.selector_type) f.inputs) (drop 4 tx.input)
        ≡ some decoded
    pub has_params : params ≡ params_of f.inputs (decoded_inputs decoded)
    pub true_of : expression_holds platform alloy params expression ≡ true

  -- Nothing is added, or one call that a condition of the list asks for.
  pub data Reports (conditions : List FunctionCondition) (calls : Calls) : Calls → Type 0 where
    nothing : Reports conditions calls calls
    call :
        (f : AbiItem) (expression : Option String) (params : List MatchParamEntry) (hex : String)
        → Asks conditions f expression params
        → Reports conditions calls (push_call platform alloy f expression params hex calls)

  weaken :
      {c : FunctionCondition} {cs : List FunctionCondition} {calls r : Calls}
      → Reports cs calls r
      → Reports (c ∷ cs) calls r
  weaken nothing = nothing
  weaken (call f expression params hex a) = call f expression params hex (record {
    called = a.called;
    condition = a.condition;
    listed = Memᴰ.tail a.listed;
    same_signature = a.same_signature;
    same_expression = a.same_expression;
    decoded = a.decoded;
    decodes = a.decodes;
    has_params = a.has_params;
    true_of = a.true_of;
  })

  Reports-if :
      {cs : List FunctionCondition} {calls : Calls} (b : Bool) (x y : Calls)
      → (b ≡ true → Reports cs calls x)
      → (b ≡ false → Reports cs calls y)
      → Reports cs calls (if b then x else y)
  Reports-if true x y h k = h refl
  Reports-if false x y h k = k refl

  module _ (f : AbiItem) (called : IsCalled f) where
    asks :
        (c : FunctionCondition) (cs : List FunctionCondition) (v : DynSolValue)
        (expression : Option String)
        → are_same_signature platform c.signature (signature_of f) ≡ true
        → c.expression ≡ expression
        → alloy.abi_decode_params (map (λ p. p.selector_type) f.inputs) (drop 4 tx.input) ≡ some v
        → expression_holds platform alloy (params_of f.inputs (decoded_inputs v)) expression ≡ true
        → Asks (c ∷ cs) f expression (params_of f.inputs (decoded_inputs v))
    asks c cs v expression same e d h = record {
      called = called;
      condition = c;
      listed = Memᴰ.head refl;
      same_signature = same;
      same_expression = e;
      decoded = v;
      decodes = d;
      has_params = refl;
      true_of = h;
    }

    try_call-Reports :
        (c : FunctionCondition) (cs : List FunctionCondition) (v : DynSolValue)
        (expression : Option String) (calls next : Calls)
        → are_same_signature platform c.signature (signature_of f) ≡ true
        → c.expression ≡ expression
        → alloy.abi_decode_params (map (λ p. p.selector_type) f.inputs) (drop 4 tx.input) ≡ some v
        → Reports cs calls next
        → Reports (c ∷ cs) calls (
            try_call platform alloy f (params_of f.inputs (decoded_inputs v)) expression calls next)
    try_call-Reports c cs v none calls next same e d rest =
        call f none _ _ (asks c cs v none same e d refl)
    try_call-Reports c cs v (some expr) calls next same e d rest =
        Reports-if
          (holds (evaluate_expression platform alloy expr (params_of f.inputs (decoded_inputs v))))
          _ _ (λ true_is. call f (some expr) _ _ (asks c cs v (some expr) same e d true_is))
          λ false_is. weaken rest

    try_decoded-Reports :
        (c : FunctionCondition) (cs : List FunctionCondition) (decoded : Option DynSolValue)
        (calls next : Calls)
        → are_same_signature platform c.signature (signature_of f) ≡ true
        → alloy.abi_decode_params (map (λ p. p.selector_type) f.inputs) (drop 4 tx.input) ≡ decoded
        → Reports cs calls next
        → Reports (c ∷ cs) calls (try_decoded platform alloy f c.expression decoded calls next)
    try_decoded-Reports c cs none calls next same d rest = weaken rest
    try_decoded-Reports c cs (some v) calls next same d rest =
        try_call-Reports c cs v c.expression calls next same refl d rest

    check_functions-Reports :
        (cs : List FunctionCondition) (calls : Calls)
        → Reports cs calls (check_functions platform alloy f tx.input cs calls)
    unfolding check_functions
    check_functions-Reports [] calls = nothing
    check_functions-Reports (c ∷ cs) calls =
        let types : List String = map (λ p. p.selector_type) f.inputs in
        Reports-if (are_same_signature platform c.signature (signature_of f)) _ _
          (λ same.
            Reports-if (alloy.are_types types) _ _
              (λ typed.
                try_decoded-Reports c cs (alloy.abi_decode_params types (drop 4 tx.input)) calls _
                  same refl (check_functions-Reports cs calls))
              λ untyped. nothing)
          λ different. weaken (check_functions-Reports cs calls)

  module _ (to : String) (has_to : tx.to ≡ some to) (addr : AddressWithSpec)
      (monitored : Memᴰ addr monitor.addresses)
      (is_receiver : are_same_address platform addr.address (h160_to_string to) ≡ true)
      (cs : List FunctionCondition) (calls : Calls) where
    of_selected :
        (spec : String × String)
        → Memᴰ spec specs
        → are_same_address platform spec.0 addr.address ≡ true
        → (contract : JsonAbi) → alloy.parse_abi spec.1 ≡ some contract
        → 4 ≤ length tx.input
        → (o : Option AbiItem)
        → find (λ f. bytes_eq f.selector (take 4 tx.input)) contract.functions ≡ o
        → Reports cs calls (check_selected platform alloy o tx.input cs calls)
    of_selected spec listed of_addr contract parsed long none e = nothing
    of_selected spec listed of_addr contract parsed long (some f) e =
        let (declared, same) =
          find-Found (λ f. bytes_eq f.selector (take 4 tx.input)) contract.functions e in
        check_functions-Reports f
          (record {
            to = to;
            has_to = has_to;
            addr = addr;
            monitored = monitored;
            is_receiver = is_receiver;
            spec = spec;
            listed = listed;
            of_addr = of_addr;
            contract = contract;
            parsed = parsed;
            declared = declared;
            long = long;
            selected = bytes_eq-eq f.selector (take 4 tx.input) same;
          })
          cs calls

    of_contract :
        (spec : String × String)
        → Memᴰ spec specs
        → are_same_address platform spec.0 addr.address ≡ true
        → (o : Option JsonAbi) → alloy.parse_abi spec.1 ≡ o
        → Reports cs calls (check_contract platform alloy o tx.input cs calls)
    of_contract spec listed of_addr none e = nothing
    of_contract spec listed of_addr (some contract) e =
        Reports-if (leb 4 (length tx.input)) _ _
          (λ long.
            of_selected spec listed of_addr contract e (leb-≤ 4 (length tx.input) long) _ refl)
          λ short. nothing

    of_spec :
        (o : Option (String × String))
        → find (λ spec. are_same_address platform spec.0 addr.address) specs ≡ o
        → Reports cs calls (check_spec platform alloy o tx.input cs calls)
    of_spec none e = nothing
    of_spec (some (address, abi)) e =
        let (listed, of_addr) =
          find-Found (λ spec. are_same_address platform spec.0 addr.address) specs e in
        of_contract (address, abi) listed of_addr (alloy.parse_abi abi) refl

  of_address :
      (receiver : Option String)
      → tx.to ≡ receiver
      → (o : Option AddressWithSpec)
      → find (is_called platform alloy receiver) monitor.addresses ≡ o
      → (cs : List FunctionCondition) (calls : Calls)
      → Reports cs calls (check_address platform alloy specs o tx.input cs calls)
  of_address receiver t none e cs calls = nothing
  of_address none t (some addr) e cs calls =
      absurd (true_is_false (find-Found (is_called platform alloy none) monitor.addresses e).1)
    where
      true_is_false : ◌≡◌ {A = Bool} false true → ⊥
      true_is_false h = cc
  of_address (some to) t (some addr) e cs calls =
      let (monitored, is_receiver) =
        find-Found (is_called platform alloy (some to)) monitor.addresses e in
      of_spec to t addr monitored is_receiver cs calls _ refl

  -- A transaction adds at most one function call. It calls a monitored address, the call's function is
  -- the one that the first four bytes of its input select in the interface of that address, and a
  -- function condition of the monitor has the function's signature and no expression, or one that
  -- evaluates to true on the decoded arguments.
  pub find_matching_functions-Reports :
      (calls : Calls)
      → Reports monitor.match_conditions.functions calls
          (find_matching_functions_for_transaction platform alloy specs tx monitor calls)
  unfolding find_matching_functions_for_transaction
  find_matching_functions-Reports calls =
      Reports-if (is_empty monitor.match_conditions.functions) _ _ (λ none_are. nothing)
        λ some_are. of_address tx.to refl _ refl monitor.match_conditions.functions calls

  -- A function condition that is reported of the transaction.
  pub record IsCall (reported : FunctionCondition) : Type 0 where
    pub function : AbiItem
    pub params : List MatchParamEntry
    pub asks : Asks monitor.match_conditions.functions function reported.expression params
    pub signature : reported.signature ≡ signature_of function

  reported-IsCall :
      (calls r : Calls)
      → Reports monitor.match_conditions.functions calls r
      → All IsCall calls.matched_functions
      → All IsCall r.matched_functions
  unfolding push_call
  reported-IsCall calls r nothing h = h
  reported-IsCall calls r (call f expression params hex a) h =
      All-append IsCall calls.matched_functions _ h
        (record { function = f; params = params; asks = a; signature = refl }, tt)

  pub find_matching_functions-IsCall :
      (calls : Calls)
      → All IsCall calls.matched_functions
      → All IsCall
          (find_matching_functions_for_transaction platform alloy specs tx monitor
            calls).matched_functions
  find_matching_functions-IsCall calls h =
      reported-IsCall calls _ (find_matching_functions-Reports calls) h
