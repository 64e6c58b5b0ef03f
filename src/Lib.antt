-- ===== src/Lib.antt =====
-- The assignment of municipal staff to shelters and polling stations: a library of models of the
-- repository's Python code, with the theorems that make it correct.
--
-- The program. Staff members declare whether they are available for an event; a coordinator runs an
-- optimisation, which places the available staff at the facilities under five hard constraints
-- (headcount of a facility, one facility for each person, qualifications, availability, and a cap for
-- each department); the event then goes through its lifecycle to a confirmed assignment. A web API
-- with sessions stands in front, and a worker takes the optimisations from a queue.
--
-- Which file models which part, by paths from the repository's root:
--   Common           names, lists, dictionaries, results, integers, and floats as an interface
--   SharedKernel     src/shared_kernel: Exceptions (exceptions.py), Enums (enums.py), Entities
--                    (entities.py, with Lifecycle for Event.transition_to), Availability
--                    (availability.py), Values and CostModel (value_objects.py), Problem (problem.py)
--   Optimization     src/optimization_engine: Validation (validation.py), Model, Scaling, Builder,
--                    CpSat (cp_sat_adapter.py), Diagnoser, Service (service.py and
--                    result_mapper.py). Validation.Valid says what the check means, and Solved joins
--                    the program that is handed to the solver with the check
--   Security         src/security: Entities, Store (ports.py), Store.Sql
--                    (src/api_orchestration/session_store.py), Authentication, Authorization,
--                    RateLimit, Network, Sanitizer
--   Jobs             Queue (src/api_orchestration/job_queue.py), Results
--                    (src/optimization_engine/repository.py and src/api_orchestration/services.py)
--   DataManagement   Rows, Names and Mappers (src/data_management/mappers.py, with RoundTrips and
--                    Checked), Repositories (repositories.py on the tables of schema.py: Store,
--                    Writes, Reads, Masters, Effective), and of services.py Availability
--                    (AvailabilityService), Events (EventService) and Imports (import_staff of
--                    MasterDataService, with csv_codec.py). Distances is the SqlDistanceCache
--                    of repositories.py
--   Distance         src/distance_cost: the distance on the earth, the keys and the matrix
--   Api              src/api_orchestration: Errors and Middleware (middleware.py), Problems
--                    (problem_builder.py), Worker (worker.py), which takes jobs from Jobs.Queue,
--                    runs Optimization.Service and keeps Jobs.Results
--   Tests            concrete inputs
--
-- How state and operations correspond. A dataclass is a record and its __post_init__ a function into
-- Result, which the constructor of the class runs; an exception is the err of a Result. An entity is
-- changed by returning a new one. A table is the list of its rows and a transaction a function of the
-- tables: a refused insert returns an error and no tables, as the rollback leaves none of it. The
-- authenticator passes on a state of the store, the audit log and the hashes that were verified. A
-- dictionary is the list of its writes, the last of which counts, or an association list. Every loop is
-- structural recursion, so no function here runs on fuel or can fail to return.
--
-- Parameters. OR-Tools is a function from programs to replies, with the documented guarantee that
-- the values of a solution satisfy the constraints (Optimization.CpSat.IsSound). Python's float is
-- the interface Common.Float, and a theorem names what it asks of it; round and ceil are asked for
-- at finite values. The password hasher, the random identifiers of sessions and the ipaddress
-- module are arguments, and so are the functions of Python's math module, the route that FastAPI
-- finds for a request with the handler behind it, the headers of a request, the text before the
-- first comma of the forwarded one, the reader of CSV and the characters that are white space to
-- it. A date and a datetime are numbers. A table of the masters, the events and the declarations
-- is the list of its rows in the order in which a SELECT of them hands them out; for the saved
-- assignments, which are read without an ORDER BY through the index of their key, that order is a
-- parameter.
--
-- Not modelled: the text of messages, the HTTP routes and their data transfer objects, the CSV
-- exports, the CSV imports of districts, facilities and declarations, the history of declarations,
-- the comparison report, the hashing of passwords, the files of the audit log, the engine of the
-- database and the browser client. The imports, the exports, the report and the conversion of
-- results for the routes are code of the repository that a model can still cover; the rest are
-- calls of libraries and configuration.
pub mod Common
pub mod SharedKernel
pub mod Optimization
pub mod Security
pub mod Jobs
pub mod DataManagement
pub mod Distance
pub mod Api
pub mod Tests
