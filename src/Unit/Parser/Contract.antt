-- ===== src/Unit/Parser/Contract.antt =====
-- crates/rinit-core/src/unit/parser.rs: the contract of the configurations that `parse` returns.
use rinit.Prelude.{
  ℕ, ◌≡◌, ap, ◌∙◌, ◌≢◌, inl, inr, Bool, true, false, not, ◌&&◌, Option, none, some, List, [], ◌∷◌,
  ◌++◌, arith, ◌==◌, if◌then◌else◌, Bool-cases, Option-cases, Text, Result, ok,
}
use rinit.Prelude.Slices.{trim_by}
use rinit.Unit.Name.{UnitName, service, is_whitespace}
use rinit.Unit.State.{ServiceKind, oneshot, RestartPolicy, never}
use rinit.Unit.Config.{UnitConfig, new_config, is_empty_command, is_target}
use rinit.Unit.Parser.{Section, Parser, new_parser}
use rinit.Unit.Parser.Lexing.{logical_lines, section_header, split_entry, tokenize}
use rinit.Unit.Parser.Values.{is_absolute}
use rinit.Unit.Parser.Directives.{
  Setting, Directive, unit_type, setting, directive_of, set_value, declared_type, noted,
  apply_directive,
}
use rinit.Unit.Parser.Running.{
  dispatch, entry_of, entry, in_section, read_header, read_line, read_lines, check_type, is_oneshot,
  is_never, check_config, finish, parse,
}
use rinit.Prelude.{bind-eq-ok}
use mathlib.Core.Path.{subst}
use rinit.Unit.Parser.{section_text, duplicate_key}
use rinit.Unit.Parser.Running.{repeatable_keys, has_text, has_seen}
use rinit.Unit.Parser.Sane.{IsSane, set_value-IsSane}

module _ (name : UnitName) where
  -- The state of the parser keeps the name that it was given.
  record Reading (p : Parser) : Type 0 where
    same : p.name ≡ name
    sane : IsSane name p.cfg

  noted-Reading :
      (s : Setting) (line : ℕ) (p : Parser) (c : UnitConfig)
      → p.name ≡ name
      → IsSane name c
      → Reading (record (noted s line p) { cfg = c })
  unfolding noted
  noted-Reading s line p c e h = ground arith

  apply_directive-Reading :
      (d : Directive) (p q : Parser) (line : ℕ) (key : Text) (tokens : List Text)
      → Reading p
      → apply_directive d p line key tokens ≡ ok q
      → Reading q
  unfolding apply_directive
  apply_directive-Reading unit_type p q line key tokens h e =
      let (t, read, made) =
        bind-eq-ok (declared_type line key tokens)
          (λ t. ok (record p { declared_unit_type = some t })) e in
      ground arith
  apply_directive-Reading (setting s) p q line key tokens h e =
      let (c, set, made) =
        bind-eq-ok (set_value s p.cfg line key tokens)
          (λ c. ok (record (noted s line p) { cfg = c })) e in
      let new =
        noted-Reading s line p c h.same
          (set_value-IsSane name s p.cfg c line key tokens h.sane set) in
      let e' : record (noted s line p) { cfg = c } ≡ q = cc in subst Reading e' new

  dispatch-Reading :
      (o : Option Directive) (p q : Parser) (sec : Section) (line : ℕ) (key : Text)
      (tokens : List Text)
      → Reading p
      → dispatch o p sec line key tokens ≡ ok q
      → Reading q
  unfolding dispatch
  dispatch-Reading none p q sec line key tokens h e = cc
  dispatch-Reading (some d) p q sec line key tokens h e =
      apply_directive-Reading d p q line key tokens h e

  marked-Reading :
      (b : Bool) (p : Parser) (sec : Section) (key : Text)
      → Reading p
      → Reading (if b then p else record p { seen = p.seen ++ (section_text sec, key) ∷ [] })
  marked-Reading true p sec key h = h
  marked-Reading false p sec key h = ground arith

  entry_of-Reading :
      (p q : Parser) (sec : Section) (line : ℕ) (kv : Text × Text)
      → Reading p
      → entry_of p sec line kv ≡ ok q
      → Reading q
  unfolding entry_of
  entry_of-Reading p q sec line (key, value) h e =
      let repeatable = has_text key repeatable_keys in
      let marked =
        if repeatable then p else record p { seen = p.seen ++ (section_text sec, key) ∷ [] } in
      elim (Bool-cases (not repeatable && has_seen (section_text sec) key p.seen)) [
        | inl twice ↦
            absurd (let bad : Result.err (duplicate_key line key) ≡ ok q = ground arith in cc)
        | inr once ↦
            let (tokens, read, later) =
              bind-eq-ok (tokenize value line)
                (λ tokens. dispatch (directive_of sec key) marked sec line key tokens)
                (ground arith) in
            dispatch-Reading (directive_of sec key) marked q sec line key tokens
              (marked-Reading (has_text key repeatable_keys) p sec key h) later
      ]

  entry-Reading :
      (p q : Parser) (sec : Section) (line : ℕ) (text : Text)
      → Reading p
      → entry p sec line text ≡ ok q
      → Reading q
  unfolding entry
  entry-Reading p q sec line text h e = elim (Option-cases (split_entry text)) [
    | inl bad ↦ absurd (ground arith)
    | inr (kv, found) ↦ entry_of-Reading p q sec line kv h (rw (found, entry) at e)
  ]

  read_header-Reading :
      (o : Option Section) (p q : Parser) (line : ℕ) (text : Text)
      → Reading p
      → read_header o p line text ≡ ok q
      → Reading q
  unfolding read_header
  read_header-Reading (some s) p q line text h e = ground arith
  read_header-Reading none p q line text h e = inside p.current_section e
    where
      inside : (o : Option Section) → in_section o p line text ≡ ok q → Reading q
      inside none e = cc
      inside (some s) e = entry-Reading p q s line text h e

  read_line-Reading :
      (p q : Parser) (line : ℕ) (text : Text) → Reading p → read_line p line text ≡ ok q → Reading q
  unfolding read_line
  read_line-Reading p q line [] h e = subst Reading (let s : p ≡ q = cc in s) h
  read_line-Reading p q line (c ∷ s) h e = elim (Bool-cases (c == b'#')) [
    | inl comment ↦ subst Reading (let s : p ≡ q = ground arith in s) h
    | inr code ↦
        let (o, read, later) =
          bind-eq-ok (section_header (c ∷ s) line) (λ o. read_header o p line (c ∷ s))
            (rw (code, read_line) at e) in
        read_header-Reading o p q line (c ∷ s) h later
  ]

  read_lines-Reading :
      (ls : List (ℕ × Text)) (p q : Parser) → Reading p → read_lines p ls ≡ ok q → Reading q
  unfolding read_lines
  read_lines-Reading [] p q h e = subst Reading (let s : p ≡ q = cc in s) h
  read_lines-Reading ((n, line) ∷ ls) p q h e =
      let (m, read, later) =
        bind-eq-ok (read_line p n (trim_by is_whitespace line)) (λ m. read_lines m ls) e in
      read_lines-Reading ls m q (read_line-Reading p m n (trim_by is_whitespace line) h read) later

  new_parser-Reading : Reading (new_parser name)
  unfolding new_parser new_config is_absolute
  new_parser-Reading = ground arith

-- What a configuration promises to those who read it.
pub record IsContract (name : UnitName) (c : UnitConfig) : Type 0 where
  pub sane : IsSane name c
  pub kind_of_name : c.kind ≡ name.ty
  pub has_command : name.ty ≡ service → c.exec_start.argv ≢ []
  pub no_restart : c.service_kind ≡ oneshot → c.restart ≡ never

argv-nonempty :
    (c : UnitConfig)
    → not (is_target c) && is_empty_command c.exec_start ≡ false
    → c.kind ≡ service
    → c.exec_start.argv ≢ []
unfolding is_target is_empty_command
argv-nonempty c h k z = ground arith

restart-never :
    (k : ServiceKind) (r : RestartPolicy)
    → is_oneshot k && not (is_never r) ≡ false
    → k ≡ oneshot
    → r ≡ never
unfolding is_oneshot is_never
restart-never k r h e = ground arith

check_config-IsContract :
    (p : Parser) (c d : UnitConfig) (name : UnitName)
    → IsSane name c
    → c.kind ≡ name.ty
    → check_config p c ≡ ok d
    → IsContract name d
unfolding check_config
check_config-IsContract p c d name s k e =
    elim (Bool-cases (not (is_target c) && is_empty_command c.exec_start)) [
      | inl bad ↦ absurd (ground arith)
      | inr fine ↦ elim (Bool-cases (is_oneshot c.service_kind && not (is_never c.restart))) [
        | inl bad ↦ absurd (ground arith)
        | inr calm ↦
            let same : c ≡ d = ground arith in
            subst (IsContract name) same (record {
              sane = s;
              kind_of_name = k;
              has_command = λ t. argv-nonempty c fine (k ∙ t);
              no_restart = restart-never c.service_kind c.restart calm;
            })
      ]
    ]

finish-IsContract :
    (p : Parser) (d : UnitConfig) (name : UnitName)
    → Reading name p
    → finish p ≡ ok d
    → IsContract name d
unfolding finish
finish-IsContract p d name h e =
    let (u, typed, checked) =
      bind-eq-ok (check_type p.declared_unit_type p.name)
        (λ _. check_config p (record p.cfg { kind = p.name.ty })) e in
    check_config-IsContract p (record p.cfg { kind = p.name.ty }) d name (ground arith)
      (ap (λ n. n.ty) h.same) checked

-- Whatever `parse` accepts is within the contract: it has the given name and that name's type; a
-- service has a command, a oneshot no restart; the burst is between 1 and 1000000; the interval and
-- time limit of health checks are not 0; the cgroup's limits on memory and tasks are not 0, and its
-- limit on the processor is a percentage from 1 to 100 or a runtime and a period that are not 0; and
-- the working directory is absolute.
pub parse-IsContract :
    (name : UnitName) (input : Text) (c : UnitConfig) → parse name input ≡ ok c → IsContract name c
unfolding parse
parse-IsContract name input c e =
    let (p, read, finished) =
      bind-eq-ok (read_lines (new_parser name) (logical_lines input)) finish e in
    let done =
      read_lines-Reading name (logical_lines input) (new_parser name) p (new_parser-Reading name)
        read in
    finish-IsContract p c name done finished
