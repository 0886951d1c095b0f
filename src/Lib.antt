-- ===== src/Lib.antt =====
-- A cluster monitor for Kubernetes. A custom resource of type Receiver holds a policy: which
-- deployments to watch, and what to do with them. Its parts, and the files that model them:
--
-- * The controller (`CustomResource/handler.go`, `controller.go`, `main.go`) writes the policy
--   into the annotations of deployments and restarts their pods: Controller. Selector is
--   `RetrieveExpression`, Policy the values and annotations, Handler `ObjectCreated` and
--   `ObjectDeleted`, Worker `processNextItem` and the event handlers, Worker/Run `runWorker`, and
--   Worker/Lifecycle is `Run` next to the event handlers and the end of `main`, as a step relation.
--   Handler/Reconciles is about a cluster that the controller alone writes (Kube/Cluster), with the
--   policy as its specification; Handler/Effect has the lemmas.
-- * The webhook (`webhook/webhook.go`) adds a sidecar to new pods: Webhook. Mutation is
--   `mutationRequired`, Patch `createPatch` with its three helpers, Server `mutate` and `serve`.
--   Patch/Apply is an independent reading of RFC 6902 for the paths that such patches use. Start
--   is `loadConfig`, and the server of `webhook/main.go`, also without a configuration or a client.
-- * The sidecar (`sidecar/sidecar.go`) checks the ports of its pod and logs the results: Sidecar.
--   Start is its `main` up to the addresses, Environment is `setEnvironment`, Health the
--   addresses and one round of checks, Log what is logged of one, Loop the rounds and the pauses.
-- * The collector (`logger/collector/collector.go`) reads these logs into a file:
--   Logger/Collector, with `processLine` and `addToLog`; Logger/Collector/Rounds is one round of
--   its loop, and Logger/Collector/Run its `main` for a number of rounds. Logger/Collector/Checks
--   is about the lines that the sidecar has logged.
-- * The endpoint (`logger/endpoint/endpoint.go`) serves the file and quarantines deployments:
--   Logger/Endpoint/Retrieve is `retrieveLogs`, Logger/Endpoint/Action is `takeAction`, from the
--   client to the answer in Logger/Endpoint/Request.
-- * The sender (`logger/sender/sender.go`) posts the logs of the endpoint to the destinations of
--   the policies: Logger/Sender is one round of its loop, and Logger/Sender/Run the loop. The
--   analysis server (`analysis_tool/server.go`) stores what it receives: AnalysisTool is
--   `receiveLogs`.
--
-- * Clients is how the programs get their clients of the API server, `getClientConfig` and the
--   functions that call it.
-- * The custom resource is Receiver, and Receiver/Copies is its generated `DeepCopy`
--   (`CustomResource/src/pkg/apis/myproject/v1alpha1/zz_generated.deepcopy.go`) on a heap, with
--   Receiver/Copies/Lists for lists, objects and the parts.
-- * Generated is the generated client (`CustomResource/src/pkg/client/`): Requests the requests of
--   the typed client and Fake its fake for tests, Lister the lister, Factory the informer factory,
--   Informer the parts of the informer, Resource `ForResource`, Clientset and Typed the clients.
--
-- The parts meet in the annotations (Keys), in the API server (Kube), and in the log file, whose
-- text the collector writes and the endpoint reads. Rollout is about a deployment that the
-- controller gave a policy: what the webhook and the sidecar make of it, and Rollout/Monitoring
-- follows the checks of the sidecar into the entries of the collector.
--
-- Texts are lists of bytes, a map is an association list in the order in which a `range` visits
-- it, which two runs need not share (Controller/Selector/Reordered), and a Go function that
-- calls the outside world is a program over the record of all calls so far (Prelude/Program),
-- with early returns and panics. The API server, JSON, HTTP, logrus, the work queue and label
-- selectors are parameters, and the answers of the server may depend on all earlier calls.
-- Logging is left out, but for the sidecar's health checks.
--
-- Loops on fuel: a round of `processLine` takes at least one byte from the line, so one more
-- than its length is enough. The waiting loops of the sidecar end when the server lets them, so
-- their fuel is the number of rounds allowed, and the theorem names the number that is enough.
-- `runWorker` goes on while the queue is open, and its fuel is a number of turns. The endless
-- loops of the collector, the sender and the sidecar are cut off after any number of rounds. The
-- heap of Receiver/Copies needs no fuel.
--
-- Not modelled: the HTTP servers, routers and certificates; the passing of time, but for the length
-- of the sidecar's pause; the start of goroutines other than the controller's; of the generated code
-- the registration of types and the accessors that only pass values on.
pub mod Prelude
pub mod Kube
pub mod Keys
pub mod Clients
pub mod Receiver
pub mod Controller
pub mod Webhook
pub mod Logger
pub mod Sidecar
pub mod AnalysisTool
pub mod Rollout
pub mod Generated
pub mod Tests
