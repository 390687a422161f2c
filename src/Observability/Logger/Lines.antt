-- ===== src/Observability/Logger/Lines.antt =====
-- What every line of a service carries.
use fluffy_dollop.Base.{
  ◌≡◌, refl, ap, sym, ◌∙◌, ◌⊎◌, inl, inr, Option, none, some, List, [], ◌∷◌, ◌++◌, arith,
}
use fluffy_dollop.Base.Text.{Text, lit}
use fluffy_dollop.Go.Errors.{Error, error_text}
use fluffy_dollop.Config.Types.{ObservabilityConfig}
use fluffy_dollop.Config.Loader.{Environment}
use fluffy_dollop.Observability.{LogLevel, debug, info, warn, error}
use fluffy_dollop.Observability.Logger.{
  text, Attr, Logger, env_or, new_logger, Context, attr_of, with_context, with_args, with_error,
  with_fields, log_queue_error,
}

-- The calls that make one logger from another.
pub data Derivation : Type 0 where
  by_context : Context → Derivation
  by_args : List Attr → Derivation
  by_error : Option Error → Derivation
  by_fields : List Attr → Derivation

abbrev pub derive_one : Derivation → Logger → Logger
derive_one (by_context ctx) l = with_context ctx l
derive_one (by_args args) l = with_args args l
derive_one (by_error e) l = with_error e l
derive_one (by_fields fields) l = with_fields fields l

abbrev pub derive : List Derivation → Logger → Logger
derive [] l = l
derive (d ∷ ds) l = derive ds (derive_one d l)

-- The attributes that a derivation adds.
abbrev pub added_by : Derivation → List Attr
added_by (by_context ctx) =
    attr_of (lit "request_id") ctx.request_id
    ++ (attr_of (lit "trace_id") ctx.trace_id ++ attr_of (lit "user_id") ctx.user_id)
added_by (by_args args) = args
added_by (by_error none) = []
added_by (by_error (some e)) = (lit "error", text (error_text e)) ∷ []
added_by (by_fields fields) = fields

abbrev pub added : List Derivation → List Attr
added [] = []
added (d ∷ ds) = added_by d ++ added ds

append_nil : (xs : List Attr) → xs ++ [] ≡ xs
append_nil [] = refl
append_nil (x ∷ xs) = ap (λ ys. x ∷ ys) (append_nil xs)

append_assoc : (xs ys zs : List Attr) → (xs ++ ys) ++ zs ≡ xs ++ (ys ++ zs)
append_assoc [] ys zs = refl
append_assoc (x ∷ xs) ys zs = ap (λ l. x ∷ l) (append_assoc xs ys zs)

derive_one-attrs :
    (d : Derivation) (l : Logger)
    → ((derive_one d l).attrs ≡ l.attrs ++ added_by d) × ((derive_one d l).level ≡ l.level)
unfolding with_context with_args with_error with_fields
derive_one-attrs (by_context ctx) l =
    let request = attr_of (lit "request_id") ctx.request_id in
    let trace = attr_of (lit "trace_id") ctx.trace_id in
    (
      append_assoc (l.attrs ++ request) trace (attr_of (lit "user_id") ctx.user_id)
          ∙ append_assoc l.attrs request (trace ++ attr_of (lit "user_id") ctx.user_id),
      refl,
    )
derive_one-attrs (by_args args) l = (refl, refl)
derive_one-attrs (by_error none) l = (sym (append_nil l.attrs), refl)
derive_one-attrs (by_error (some e)) l = (refl, refl)
derive_one-attrs (by_fields fields) l = (refl, refl)

derive-attrs :
    (ds : List Derivation) (l : Logger)
    → ((derive ds l).attrs ≡ l.attrs ++ added ds) × ((derive ds l).level ≡ l.level)
derive-attrs [] l = (sym (append_nil l.attrs), refl)
derive-attrs (d ∷ ds) l =
    let (here, level) = derive_one-attrs d l in
    let (rest, level') = derive-attrs ds (derive_one d l) in
    (
      rest ∙ ap (λ xs. xs ++ added ds) here ∙ append_assoc l.attrs (added_by d) (added ds),
      level' ∙ level,
    )

abbrev pub error_attrs : Text → Error → List Attr
error_attrs operation e =
    (lit "operation", text operation) ∷ (lit "error", text (error_text e)) ∷ []

Level-cases : (l : LogLevel) → (l ≡ debug) ⊎ (l ≡ info) ⊎ (l ≡ warn) ⊎ (l ≡ error)
Level-cases debug = inl refl
Level-cases info = inr (inl refl)
Level-cases warn = inr (inr (inl refl))
Level-cases error = inr (inr (inr refl))

emitted :
    (operation : Text) (e : Error) (l : Logger)
    → log_queue_error operation e l
      ≡ some (record {
        level = error;
        message = lit "queue error";
        attrs = l.attrs ++ error_attrs operation e;
      })
unfolding log_queue_error
emitted operation e l = elim (Level-cases l.level) [
  | inl h ↦ ground arith
  | inr (inl h) ↦ ground arith
  | inr (inr (inl h)) ↦ ground arith
  | inr (inr (inr h)) ↦ ground arith
]

-- Whatever the configured level and format, and however a logger was derived from that of the
-- service, an error of the queue is logged: the line begins with the service's name and the
-- environment, goes on with what the derivations added, in their order, and ends with the operation
-- and the error.
pub log_queue_error-derived :
    {Float : Type 0} (env : Environment) (c : ObservabilityConfig Float) (service operation : Text)
    (e : Error) (ds : List Derivation)
    → log_queue_error operation e (derive ds (new_logger env c service))
      ≡ some (record {
        level = error;
        message = lit "queue error";
        attrs =
            (lit "service", text service)
            ∷ (lit "environment", text (env_or env (lit "ENVIRONMENT") (lit "development")))
            ∷ (added ds ++ error_attrs operation e);
      })
unfolding new_logger
log_queue_error-derived env c service operation e ds =
    let l = new_logger env c service in
    emitted operation e (derive ds l)
    ∙ ap
        (λ xs. some (record {
          level = error;
          message = lit "queue error";
          attrs = xs ++ error_attrs operation e;
        }))
        (derive-attrs ds l).0
