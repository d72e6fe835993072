-- ===== src/Lib.antt =====
-- Models of five programs of the repository, and what holds of them.
--
-- The pet store (kubernetes/petstore-operator/petstore/server). A gRPC server validates messages
-- and hands them to a store in memory, which keeps the pets by id and three indexes: by name, by
-- type and by birthday.
-- - Petstore/Calendar and Petstore/Validate: BirthdayToTime and ValidatePet of storage/storage.go.
-- - Petstore/Tree: the tree of github.com/biogo/store/llrb, which is not in the repository: an
--   interface with the laws of its documentation. Petstore/Examples/SortedTree fills it.
-- - Petstore/Mem: Data of storage/mem/mem.go. AddPets, UpdatePets, DeletePets and searchPets are
--   add_pets, update_pets, delete_pets and search_pets; the lock is a count of read locks that were
--   not given back. View and Invariant say when the indexes agree with the map of ids, Writes what
--   each write does to that, Effects what a write stores on each branch, Refines compares runs of
--   writes with a plain map, Counts, Search and Exact are what a search finds, Faults what goes wrong.
-- - Petstore/Server: AddPets, UpdatePets, DeletePets and validateSearch of server.go, with their
--   counters; Calls has what a client sees, Ids that the ids of the store are drawn ones. uuid.New is
--   a function from the draws to texts. Server/Search is SearchPets, over a connection that takes a
--   number of messages, with the goroutine of the store that a broken connection can leave behind;
--   Streams has what is sent. The context of a search does not end before its last item.
-- - Petstore/Log: log/log.go: Log is itoa, formatHeader and output, Log/Events is Event, Log/Pool
--   the pool of events as objects of a heap. itoa has the twenty bytes of its buffer as fuel, which
--   Log/Decimal shows to be enough for an int.
-- - Petstore/Metrics: newLookups, the lookups and unused of telemetry/metrics/metrics.go.
-- - Petstore/Sampler: telemetry/tracing/sampler/sampler.go and ChangeSampler of server and client.
--
-- Its client and its operator (kubernetes/petstore-operator/petstore/client, controllers).
-- - Petstore/Client: AddPets, UpdatePets, DeletePets, SearchPets and handleCallOptions of client.go,
--   over an interface of the generated stub. Client/Connected fills it with the handlers of
--   Petstore/Server, over a connection that holds; Client/Agreement compares the two ends.
-- - Petstore/Operator: Reconcile, ReconcileNormal, ReconcileDelete and their helpers of
--   controllers/pet_controller.go, with the resource of api/v1alpha1/pet_types.go. Kubernetes is an
--   interface, which Petstore/Examples/Kubernetes fills. Finds is findPetInStore, Calls what is made
--   and updated, Settles and Rounds what many rounds do, Lost the pets that no resource knows.
--
-- The load balancer (automation_the_hard_way/orchestration/lb/server/http).
-- - Balancer/Backend: the health of a backend and its weight (server.go, p2c.go).
-- - Balancer/P2c: P2C of p2c.go. The goroutines of a round of health checks run in the order of the
--   lists in P2c itself and in any order in P2c/Rounds, in both of them none between the steps of
--   another; P2c/Started relates the two. P2c/Race runs two goroutines step by step.
-- - Balancer/LoadBalancer: AddPool, GetPool and RemovePool of server.go over the mux that serves them.
-- - Balancer/HealthChecks: StatusCheck, HealthMultiplexer, NewIPBackend and PoolHealth of server.go;
--   Arrivals has the loop that receives the results of the checks, in the order of their arrival.
-- - Balancer/Rpc: the handlers of ../grpc/server.go; Rpc/Pools follows an AddPool down to the routes.
-- - Balancer/Client: ../../client/client.go, over those handlers.
--
-- The rollout (automation_the_hard_way/orchestration), which upgrades the machines behind a pool.
-- - Orchestration/Config: Validate and CheckIPPort of config/config.go. The packages net and strconv
--   are parameters.
-- - Orchestration/Actions: the state functions and Run of actions/actions.go. What the machines
--   answer during a run is the argument World. The loop of Run has fuel for seven turns: a run makes
--   at most six calls.
-- - Orchestration/Workflow: checkLBState, the canaries and Status of workflow/workflow.go; Rollout is
--   the concurrent part of Run as a step relation between the goroutines; Whole is New and Run from
--   its precondition to its end state; Retry is RetryFailed, for the indices its goroutines read.
--
-- The emergency stop (design_for_chaos/es/es.go).
-- - EmergencyStop: load, Status, Subscribe, Cancel, sendStop and one turn of loop, on channels that
--   are named by numbers, with the mutex as a field of the reader. The for loop of sendStop has fuel for two turns, which is enough for a
--   channel of capacity one.
--
-- The system agent (automation_the_hard_way/agent).
-- - Agent: Install of service/service.go and Validate of msgs/msgs.go, as the list of the actions that
--   are asked of the machine; Agent/Installs says what an answer of 200 means.
--
-- Prelude has the tests, lists, integers and texts that the models share, GoMap the built-in maps.
--
-- Not modelled: tracing, the main programs, the monitoring of the system agent, the command line tools and
-- the demonstrations, and all generated code. Deadlines of contexts are left out but where a model
-- has them as an argument. Counters of Go's type int and int32 are natural numbers, but for the
-- weights of backends and the fields of configurations and dates.
pub mod Prelude
pub mod GoMap
pub mod Petstore
pub mod Balancer
pub mod Orchestration
pub mod EmergencyStop
pub mod Agent
