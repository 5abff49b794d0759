-- ===== src/Lib.antt =====
-- Flatcar Linux Update Operator: an operator (cmd/update-operator, pkg/operator) and one agent per
-- node (cmd/update-agent, pkg/agent) reboot the machines of a Kubernetes cluster after an update,
-- a bounded number at a time. They talk to each other through the labels and annotations of the
-- node objects only, whose keys are in pkg/constants and whose writes go through pkg/k8sutil.
--
-- Files and code:
--   Prelude, Prelude/*     shared names, Boolean tests, list lemmas, and Go's int as Prelude.Int.ℤ
--   GoMap                  Go's map[string]string, with the nil map; GoMap/Laws reads after writes
--   Exec, Result           calls that can fail or panic, with and without the state of the world;
--                          Exec/Laws takes chains of calls that succeeded apart
--   Constants              pkg/constants/constants.go
--   Node                   the parts of a node object that the program reads or writes
--   Client, Client/Laws    client-go: the calls, and the documented behaviour that proofs assume
--   Clock, Periodic/Calendar  the package time, and its documented behaviour in a location whose
--                          clocks are never changed
--   K8sutil/Metadata       pkg/k8sutil/metadata.go: get_node_retry, update_node_retry, setters; its
--                          files Names, Loop, Effect and Get are proofs about them
--   K8sutil/Selector       pkg/k8sutil/selector.go and FilterPods of pkg/k8sutil/pods.go
--   K8sutil/Connect        pkg/k8sutil/client.go
--   Periodic, Periodic/Parse  pkg/operator/periodic.go
--   Operator/Vars          the selectors and requirements of pkg/operator/operator.go
--   Operator/Config        its Config, checkConfig and New
--   Operator/Checks        its cleanupState and checkReboot
--   Operator/Marks         its mark, markBeforeReboot, markAfterReboot, the window, the capacity
--   Operator/Process       its process; the files below it are proofs about a pass
--   Operator/Run           its Run and withLeaderElection: the goroutines and channels as a
--                          transition system; the files below it are proofs about its runs
--   Operator/Lease         the times that withLeaderElection derives from the lease
--   Agent                  pkg/agent/agent.go: what the agent reads from the host's files and
--                          writes on its node; Agent/Config is its New, Agent/Wait its waits
--   Agent/Process          its process, from the labels to the reboot; the files below it are proofs
--   Agent/Run              its Run and newDrainer
--   Coordination           the steps of a pass of the operator and the writes of the agents as one
--                          transition system; the files below it are proofs about its runs
--   Coordination/Turns     the same by single calls of the operator, with its proofs below it
--   Updateengine, Dbus     pkg/updateengine/{status,client}.go and pkg/dbus/conn.go
--   Dbus/Mock              pkg/dbus/mock.go
--   Version                pkg/version/version.go
--   Commands               cmd/update-operator/main.go and cmd/update-agent/main.go;
--                          Commands/UpdateAgent is the agent's main as a whole, and
--                          Commands/UpdateOperator the end of the operator's
--   Tests                  an API server in memory, a calendar, a cluster, and concrete runs
--
-- The state is the world of the API server, which the model leaves abstract: a `NodeClient` has
-- the calls, and `IsQuiet` what they do to the stored nodes when the program alone writes them.
-- Calls may fail at any time. A write that meets a conflict stores nothing, any other write that
-- fails may or may not have stored its node. `retry.RetryOnConflict(retry.DefaultBackoff, ...)`
-- makes 4 attempts, so `default_retries` is 3. The agent waits for the operator in
-- rounds without an end of their own, so its process takes a bound on them: the result is `none` if
-- no round has ended the wait by then. No other loop needs a bound.
-- Instants are counted in nanoseconds; statements on the reboot window suppose that 14 days of the
-- calendar lie before the instant, so that going back a week stays inside the natural numbers. The
-- difference of two instants is exact there, and saturates in the package time only beyond 292 years.
-- The parser of apimachinery's field selectors is not modelled: what it makes of a conjunction of
-- clauses is assumed for the one text with the meaning of `rebootable`, which is written out in
-- Operator/Vars/Meaning apart from the text of the source, and the proofs need the two to be equal.
-- A panic of the code, such as an assignment to a nil map or a slice of negative capacity, is an
-- outcome of its own.
--
-- Interleavings: in Coordination the operator takes one of the five steps of a pass, or an agent
-- makes one of its writes, in any order and with any outcome. In Coordination/Turns the operator
-- makes single calls: it lists the nodes for a step, and then updates the chosen ones one by one
-- from that list, while agents write in between. An update of one node is one turn, since the API
-- server refuses a write whose node was written after it was read. Not every turn is safe: an agent
-- that starts after its reboot between markAfterReboot and markBeforeReboot leaves a node that no
-- count of the operator sees, and two_engaged in Tests/Interleaved is such a run. The predicate Free
-- says when an agent may start.
--
-- The machine of the agent is a parameter with the calls of its process: the goroutine that watches
-- the statuses, the goroutine and the select of the wait, the drain library, the end of the
-- context, the reboot and the sleep after it.
--
-- Run of the operator is a transition system of four goroutines over `errCh`, `waitLeading` and
-- the context. The leader elector of client-go, which is not modelled, may acquire the lease and
-- stop leading at any time; it gives up only when its context is cancelled. A pass is one step.
--
-- ReceiveStatuses is a function of the sequence that its channels give, with a receiver that takes
-- every status. The operator's `main` is modelled in two parts, before and after the call of Run,
-- the agent's as a whole.
--
-- Not modelled: the period between two passes, a receiver that stops taking statuses, events and
-- their broadcaster, logging, the definitions of the flags and their parsing, two operators at once,
-- when one of them has lost the lease in the middle of a pass, and the vendored libraries.
pub mod Prelude
pub mod Constants
pub mod GoMap
pub mod Exec
pub mod Result
pub mod Node
pub mod Client
pub mod K8sutil
pub mod Operator
pub mod Clock
pub mod Periodic
mod Tests
pub mod Agent
pub mod Updateengine
pub mod Version
pub mod Coordination
pub mod Commands
pub mod Dbus
