-- ===== src/Lib.antt =====
-- A verification library for oink-judge, a system that judges submissions to programming problems.
-- The dispatcher takes submissions and hands them to test nodes over a stream for each node; a test
-- node runs the tests of the problem in sandboxes and joins their verdicts; the content service
-- keeps the files of the problems, which the dispatcher and the nodes copy to their own disks.
--
-- Prelude: shared notation and lemmas. Prelude/Exceptions is a C++ call that returns or throws,
-- Prelude/Exec one that also changes a state, Prelude/Dict a map with text keys.
-- Dispatcher/Queue: modules/dispatcher/src/testing_queue.cpp and invoker.cpp. A record holds the
-- two vectors of TestingQueue, each method is a function, and a reference to an invoker is its
-- position. What an invoker posts to its channel is kept, in order, in the invoker. The children
-- prove what the methods do: Conservation, Assignment, Service, Duplicates.
-- Dispatcher/Session: modules/dispatcher/src/queue_manager_service.cpp. A session is the handler
-- of one stream, as a state that each message changes; Session/History lets any number of them
-- take steps in any order with submissions in between.
-- Dispatcher/Service: modules/dispatcher/src/dispatcher_service.cpp, submission_managers_storage.cpp
-- and send_submission_to_invoker.cpp, with the database, syncContent and what the factory answers as
-- parameters.
-- TestNode/Verdict: modules/test_node, verdict_type.hpp, verdicts/verdict_base.cpp and
-- verdict_builders/. Numbers of type double are any type with the operations of TestNode/Double,
-- and laws of an order where a theorem needs them, which whole numbers satisfy.
-- TestNode/Test and TestNode/Testset: modules/test_node/src/tests/testset.cpp over the interface
-- test.hpp. A test is its methods, which may throw and change all that is outside of the set.
-- TestNode/Meta, TestNode/Single and TestNode/SyncResult: verdict_utils.cpp, tests/single_test.cpp
-- and tests/sync_result_test.cpp. The scripts, the files that they write and the table of
-- submissions are parameters; lines of a meta file come split at the colon.
-- Content/Manifest, Content/Scanner and Content/Storage: modules/content_service/src,
-- content_manifest.cpp, content_scanner.cpp and client/content_storage.cpp. A directory is the
-- list of its files; the server is what its calls return; the hash, and whether the file system
-- stores a file at a path, are parameters, and what updateManifest stores reads back as it was. In
-- Content/Storage/Update the server is a state that the calls of the stub change, an interface that
-- Content/Transfer/Serving fills with the handlers of the server.
-- Database/Statements, Database/Connection and Database/Pool: modules/database/src,
-- statement_action_log.cpp, libpq_connection.cpp (syncStatements) and connection_pool.cpp. A
-- connection holds its cursor into the log of statements; what the server answers, and what
-- connecting to it gives, are parameters. Calls on the pool do not overlap there;
-- Database/Pool/Interleaved has acquire as the steps of any number of calls at once.
-- Database/ExecutionQueue: acquireExecutionQueue and releaseExecutionQueue of libpq_connection.cpp,
-- as steps of any number of coroutines; the timers of asio are a parameter with what asio says of
-- them. Database/Queries: encodeParams, flushAsync, consumeResults and the executions of the same
-- file, over libpq as a record of calls; Database/Connecting: connectAsync and the socket;
-- Prelude/Await is a call that may also go on waiting.
-- Database/Submissions: modules/database/src/table_submissions.cpp and execute_options.cpp over
-- the interface DatabaseExecutorInterface.
-- Factory: modules/shared/factory, parameterized_type_factory.inl and type_factory.inl. A registry
-- is the list of its entries, a name the list of its bytes.
-- Content/Server: modules/content_service/src/server/content_service.cpp. The contents are
-- directories by type and id, and each handler is a function of a request; std::filesystem's view
-- of a path is a parameter, and a storeFile that throws leaves a directory that is one too. An id
-- of a content is a key, not a path. Content/Transfer: client/content_service_stub.cpp, and the
-- handlers of the server that send files in chunks; a client calls the handlers directly, and the
-- messages between them are lists.
--
-- Loops go through lists, or on fuel where they wait for the server: the flushing and the reading
-- of results take a number of turns that the theorems bound by what is still to be sent and read.
-- The loops over a content are given as many turns as it has bytes, and one more. Sizes and indices
-- are natural numbers without a bound, since they count entries of lists in memory; so are the
-- positions in the name of a type, which the source keeps in an int.
--
-- Not modelled: the logger, the configuration, the conversion of packages, the execution of SQL, the
-- plugins, the bindings to Python and the web application, which read or write files, call
-- libraries or only pass data on. The handlers run on one executor, so that a method of the queue
-- is a single step.
pub mod Prelude
pub mod Dispatcher
pub mod TestNode
pub mod Content
pub mod Factory
pub mod Database
