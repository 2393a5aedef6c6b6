-- ===== src/Main/Serve.antt =====
-- `serve` of main.rs: the socket's file, the loop that accepts connections, and the signals that end
-- it. What `select!` yields, one thing after another, is a list; a run that ends with the list is a
-- daemon that still serves. The file system, the listener and the runtime are a parameter.
pub mod Sockets
use kv260_sigverify.Prelude.{
  ℕ, List, [], ◌∷◌, String, Bool, true, false, Option, none, some, ◌⊎◌, inl, inr, Outcome, ok, err,
  panic, if◌then◌else◌,
}
use kv260_sigverify.Accelerator.Types.{AcceleratorConfig}
use kv260_sigverify.Accelerator.Host as Device
use kv260_sigverify.Accelerator.Mapped.{mapped_accelerator}
use kv260_sigverify.Accelerator.SingleFlight.{single_flight}
use kv260_sigverify.Api.Types.{Crates}
use kv260_sigverify.Main.Args.{ServeArgs, Command, serve_command, config_of}
use kv260_sigverify.Main.Router.{Route, build_router}

-- The operating system and the runtime, with the routes of the app that serves the connections.
pub record Runtime (App : Type 0) : Type 1 where
  pub World : Type 0
  pub Listener : Type 0
  pub Stream : Type 0
  -- `tracing_subscriber::fmt()` up to `init`, with the filter
  pub init_tracing : String → World → World
  -- `Path::parent`
  pub parent : String → Option String
  pub create_dir_all : String → World → (String ⊎ Unit {0}) × World
  pub exists : String → World → Bool × World
  pub remove_file : String → World → (String ⊎ Unit {0}) × World
  -- `UnixListener::bind`
  pub bind : String → World → (String ⊎ Listener) × World
  -- `tokio::spawn` of `serve_connection` for a stream; its errors are only logged
  pub spawn : App → Stream → World → World

-- What `select!` yields: a signal, that the handler of SIGTERM cannot be installed, or the result of
-- `accept`.
pub data Event (Stream : Type 0) : Type 0 where
  terminate ctrl_c : Event Stream
  no_handler : String → Event Stream
  accepted : String ⊎ Stream → Event Stream

-- A step with a boxed error, shown by its text.
abbrev pub Io : Type 0 → Type 0 → Type 0
Io W A = W → Outcome String A × W

abbrev pub pure : {W A : Type 0} → A → Io W A
pure a w = (ok a, w)

-- The `?` operator.
abbrev pub then_with : {W A B : Type 0} → (A → Io W B) → Outcome String A × W → Outcome String B × W
then_with f (ok a, w) = f a w
then_with f (err e, w) = (err e, w)
then_with f (panic, w) = (panic, w)

infixl 5 ◌>>=◌ ◌>>◌
abbrev pub ◌>>=◌ : {W A B : Type 0} → Io W A → (A → Io W B) → Io W B
◌>>=◌ m f w = then_with f (m w)

abbrev pub ◌>>◌ : {W B : Type 0} → Io W (Unit {0}) → Io W B → Io W B
m >> k = m >>= λ _. k

abbrev pub outcome_of : {A : Type 0} → String ⊎ A → Outcome String A
outcome_of (inl error) = err error
outcome_of (inr a) = ok a

abbrev pub io : {W A : Type 0} → (W → (String ⊎ A) × W) → Io W A
io f w = let r = f w in (outcome_of r.0, r.1)

abbrev pub ask : {W A : Type 0} → (W → A × W) → Io W A
ask f w = let r = f w in (ok r.0, r.1)

module _ {App : Type 0} (r : Runtime App) where
  open r use {World, Stream}

  -- The directory of the socket's file.
  unfoldable pub create_parent : String → Io World (Unit {0})
  create_parent path = elim (r.parent path) [
    | none ↦ pure tt
    | some directory ↦ io (r.create_dir_all directory)
  ]

  unfoldable pub remove_if_exists : String → Io World (Unit {0})
  remove_if_exists path = do
    present ← ask (r.exists path)
    if present then io (r.remove_file path) else pure tt

  -- The loop: true when a signal ended it, false when it still waits for the next event.
  unfoldable pub accept_loop : App → List (Event Stream) → Io World Bool
  accept_loop app [] w = (ok false, w)
  accept_loop app (terminate ∷ events) w = (ok true, w)
  accept_loop app (ctrl_c ∷ events) w = (ok true, w)
  accept_loop app (no_handler error ∷ events) w = (panic, w)
  accept_loop app (accepted (inl error) ∷ events) w = (err error, w)
  accept_loop app (accepted (inr stream) ∷ events) w = accept_loop app events (r.spawn app stream w)

  -- `serve` from the socket's path and the app on.
  unfoldable pub serve_at : String → String → App → List (Event Stream) → Io World Bool
  serve_at log_filter socket_path app events = do
    ask (λ w. (tt {0}, r.init_tracing log_filter w))
    create_parent socket_path
    remove_if_exists socket_path
    listener ← io (r.bind socket_path)
    stopped ← accept_loop app events
    if stopped then remove_if_exists socket_path >> pure true else pure false

-- `serve` whole, with the accelerator of the device as the app: true when a signal ended it.
unfoldable pub serve :
    (h : Device.Host) (fuel : ℕ) (c : Crates) (r : Runtime (List (Route (Bool × h.World))))
    (args : ServeArgs)
    → List (Event r.Stream)
    → Io r.World Bool
serve h fuel c r args events =
    serve_at r args.log_filter args.socket_path
      (build_router c (single_flight (mapped_accelerator h fuel (config_of args)))) events

-- `main`, on what `Cli::parse` gives when it does not end the process itself.
unfoldable pub main :
    (h : Device.Host) (fuel : ℕ) (c : Crates) (r : Runtime (List (Route (Bool × h.World))))
    → Command
    → List (Event r.Stream)
    → Io r.World Bool
main h fuel c r (serve_command args) events = serve h fuel c r args events
