-- ===== src/Cli/Client/Argv.antt =====
-- `ServiceOperation::from_argv` of crates/yams-protocol/src/message.rs on the arguments that
-- crates/yams-cli/src/client.rs writes.
use yams.Prelude.{
  ℕ, ◌≡◌, refl, sym, ap, ◌∙◌, Bool, true, false, Option, none, some, List, [], ◌∷◌, ◌++◌, ◌==◌,
  if◌then◌else◌, any, if_lem, ==→eq,
}
use yams.Prelude.Options.{◌>>=◌, map_some, >>=-some}
use yams.Core.Text.{Text, characters}
use yams.Core.Text.Decimal.{decimal, decimal_loop}
use yams.Protocol.Message.{
  OperationKind, ServiceOperation, default_operation, at_option, argv_loop, is_write,
  operation_from_argv,
}
use yams.Cli.Client.{
  DirectOperation, DirectRequest, service_kind, push_if, extend_if, operation_option, k_option,
  path_text, unwrap_or_default, query_arguments, service_operation, pushed_arguments, request_argv,
}

-- The arguments read from `argv`, on top of `op`.
abbrev reads : ServiceOperation → List Text → ServiceOperation
reads op argv = argv_loop at_option op argv

-- What each part of the arguments sets in an operation that has not set it yet.
module _ (op : ServiceOperation) (rest : List Text) where
  read_json :
      (b : Bool)
      → op.json ≡ false
      → reads op (push_if b (characters "--json") ++ rest) ≡ reads (record op { json = b }) rest
  unfolding argv_loop
  read_json true h = refl
  read_json false h = ap (λ (v : Bool). reads (record op { json = v }) rest) h

  read_full :
      (b : Bool)
      → op.full ≡ false
      → reads op (push_if b (characters "--full") ++ rest) ≡ reads (record op { full = b }) rest
  unfolding argv_loop
  read_full true h = refl
  read_full false h = ap (λ (v : Bool). reads (record op { full = v }) rest) h

  read_no_gate :
      (b : Bool)
      → op.no_gate ≡ false
      → reads op (push_if b (characters "--no-gate") ++ rest)
        ≡ reads (record op { no_gate = b }) rest
  unfolding argv_loop
  read_no_gate true h = refl
  read_no_gate false h = ap (λ (v : Bool). reads (record op { no_gate = v }) rest) h

  read_explain :
      (b : Bool)
      → op.explain ≡ false
      → reads op (push_if b (characters "--explain") ++ rest)
        ≡ reads (record op { explain = b }) rest
  unfolding argv_loop
  read_explain true h = refl
  read_explain false h = ap (λ (v : Bool). reads (record op { explain = v }) rest) h

  read_min_score :
      (value : Option Text)
      → op.min_score ≡ none
      → reads op (extend_if (characters "--min-score") value ++ rest)
        ≡ reads (record op { min_score = value }) rest
  unfolding argv_loop
  read_min_score (some value) h = refl
  read_min_score none h = ap (λ (v : Option Text). reads (record op { min_score = v }) rest) h

  read_max_gap :
      (value : Option Text)
      → op.max_gap ≡ none
      → reads op (extend_if (characters "--max-gap") value ++ rest)
        ≡ reads (record op { max_gap = value }) rest
  unfolding argv_loop
  read_max_gap (some value) h = refl
  read_max_gap none h = ap (λ (v : Option Text). reads (record op { max_gap = v }) rest) h

  read_project :
      (value : Option Text)
      → op.project ≡ none
      → reads op (extend_if (characters "--project") value ++ rest)
        ≡ reads (record op { project = value }) rest
  unfolding argv_loop
  read_project (some value) h = refl
  read_project none h = ap (λ (v : Option Text). reads (record op { project = v }) rest) h

  read_k :
      (k : ℕ)
      → op.k ≡ decimal 5
      → reads op (k_option k (decimal k) ++ rest) ≡ reads (record op { k = decimal k }) rest
  unfolding argv_loop
  read_k k h =
      if_lem (λ argv. reads op (argv ++ rest) ≡ reads (record op { k = decimal k }) rest) (k == 5)
        (λ five.
          let same : k ≡ 5 = ==→eq k 5 five in
          ap (λ (v : Text). reads (record op { k = v }) rest) (h ∙ ap decimal (sym same)))
        (λ other. refl)

read_query :
    (op : ServiceOperation) (query : Option Text)
    → op.query ≡ []
    → reads op (query_arguments query) ≡ record op { query = unwrap_or_default query }
unfolding argv_loop
read_query op (some query) h = refl
read_query op none h = ap (λ (v : Text). record op { query = v }) h

-- What the operation's option sets.
read_kind :
    (d : DirectOperation) (options rest : List Text)
    → operation_option d ≡ some options
    → (kind : OperationKind) × (service_kind d ≡ some kind)
      × (reads default_operation (options ++ rest)
          ≡ reads (record default_operation { kind = kind }) rest)
unfolding argv_loop
read_kind DirectOperation.search options rest e =
    let same : options ≡ ([]) = cc in
    (OperationKind.search, refl, ap (λ (o : List Text). reads default_operation (o ++ rest)) same)
read_kind DirectOperation.all options rest e =
    let same : options ≡ (characters "--all" ∷ []) = cc in
    (OperationKind.all, refl, ap (λ (o : List Text). reads default_operation (o ++ rest)) same)
read_kind DirectOperation.index options rest e =
    let same : options ≡ (characters "--index" ∷ []) = cc in
    (OperationKind.index, refl, ap (λ (o : List Text). reads default_operation (o ++ rest)) same)
read_kind DirectOperation.stats options rest e =
    let same : options ≡ (characters "--stats" ∷ []) = cc in
    (OperationKind.stats, refl, ap (λ (o : List Text). reads default_operation (o ++ rest)) same)
read_kind DirectOperation.projects options rest e =
    let same : options ≡ (characters "--projects" ∷ []) = cc in
    (OperationKind.projects, refl, ap (λ (o : List Text). reads default_operation (o ++ rest)) same)
read_kind DirectOperation.gc options rest e =
    let same : options ≡ (characters "--gc" ∷ []) = cc in
    (OperationKind.gc, refl, ap (λ (o : List Text). reads default_operation (o ++ rest)) same)
read_kind DirectOperation.write options rest e = cc

module _ {F Filename : Type 0} (to_string : F → Text) (to_str : Filename → Option Text) where
  -- The operation of a request whose kind and project are on the wire already.
  abbrev operation_of : OperationKind → Option Text → DirectRequest F Filename → ServiceOperation
  operation_of kind project request = record {
    kind = kind;
    query = unwrap_or_default request.query;
    k = decimal request.k;
    json = request.json;
    full = request.full;
    no_gate = request.no_gate;
    explain = request.explain;
    min_score = map_some to_string request.min_score;
    max_gap = map_some to_string request.max_gap;
    project = project;
  }

  read_pushed :
      (kind : OperationKind) (project : Option Text) (r : DirectRequest F Filename)
      → decimal r.k ≡ r.requested_k
      → reads
          (record default_operation { kind = kind })
          (pushed_arguments to_string to_str r project)
        ≡ operation_of kind project r
  unfolding decimal decimal_loop
  read_pushed kind project r spelled =
      let op0 : ServiceOperation = record default_operation { kind = kind } in
      let op1 : ServiceOperation = record op0 { json = r.json } in
      let op2 : ServiceOperation = record op1 { full = r.full } in
      let op3 : ServiceOperation = record op2 { no_gate = r.no_gate } in
      let op4 : ServiceOperation = record op3 { explain = r.explain } in
      let op5 : ServiceOperation = record op4 { k = decimal r.k } in
      let op6 : ServiceOperation = record op5 { min_score = map_some to_string r.min_score } in
      let op7 : ServiceOperation = record op6 { max_gap = map_some to_string r.max_gap } in
      let op8 : ServiceOperation = record op7 { project = project } in
      let a8 : List Text = query_arguments r.query in
      let a7 : List Text = extend_if (characters "--project") project ++ a8 in
      let a6 : List Text =
        extend_if (characters "--max-gap") (map_some to_string r.max_gap) ++ a7 in
      let a5 : List Text =
        extend_if (characters "--min-score") (map_some to_string r.min_score) ++ a6 in
      let a4 : List Text = k_option r.k (decimal r.k) ++ a5 in
      let a3 : List Text = push_if r.explain (characters "--explain") ++ a4 in
      let a2 : List Text = push_if r.no_gate (characters "--no-gate") ++ a3 in
      let a1 : List Text = push_if r.full (characters "--full") ++ a2 in
      let k_spelled =
        ap
          (λ (t : Text). reads op0 (
            push_if r.json (characters "--json")
            ++ (push_if r.full (characters "--full")
                ++ (push_if r.no_gate (characters "--no-gate")
                    ++ (push_if r.explain (characters "--explain") ++ (k_option r.k t ++ a5))))))
          (sym spelled) in
      k_spelled
      ∙ read_json op0 a1 r.json refl
      ∙ read_full op1 a2 r.full refl
      ∙ read_no_gate op2 a3 r.no_gate refl
      ∙ read_explain op3 a4 r.explain refl
      ∙ read_k op4 a5 r.k refl
      ∙ read_min_score op5 a6 (map_some to_string r.min_score) refl
      ∙ read_max_gap op6 a7 (map_some to_string r.max_gap) refl
      ∙ read_project op7 a8 project refl
      ∙ read_query op8 r.query refl

  -- The operation that `ServiceOperation::from_argv` reads from the arguments of a request whose count
  -- did not saturate is the operation of the request, unless `--write` is among the arguments, and
  -- then there is none.
  pub operation_from_argv-request_argv :
      (r : DirectRequest F Filename) (argv : List Text)
      → decimal r.k ≡ r.requested_k
      → request_argv to_string to_str r ≡ some argv
      → operation_from_argv argv
        ≡ (if any is_write argv then none else service_operation to_string to_str r)
  unfolding operation_from_argv request_argv service_operation
  operation_from_argv-request_argv r argv spelled h =
      let (options, e, h1) =
        >>=-some (operation_option r.operation)
          (λ options.
            path_text to_str r.project
            >>= (λ project. some (options ++ pushed_arguments to_string to_str r project)))
          h in
      let (project, e2, h2) =
        >>=-some (path_text to_str r.project)
          (λ project. some (options ++ pushed_arguments to_string to_str r project)) h1 in
      let (kind, e3, read) =
        read_kind r.operation options (pushed_arguments to_string to_str r project) e in
      let same : (options ++ pushed_arguments to_string to_str r project) ≡ argv = cc in
      let whole : reads default_operation argv ≡ operation_of kind project r =
        ap (reads default_operation) (sym same) ∙ read ∙ read_pushed kind project r spelled in
      let op : service_operation to_string to_str r ≡ some (operation_of kind project r) = cc in
      ap (λ (o : Option ServiceOperation). if any is_write argv then none else o)
        (ap some whole ∙ sym op)
