-- ===== src/Lib.antt =====
-- Edge-Omni: a gateway that reads an MPU6050 and an SHT30 and serves their samples.
--
-- The kernel driver of the SHT30 (kernel-drivers/sht30/sht30.c) measures once a second and shows two
-- numbers in sysfs; the one of the MPU6050 (kernel-drivers/mpu6050/mpu6050.c) reports six axes as
-- input events. The hardware abstraction (app/hal) reads them and the input events of the
-- MPU6050 as `sensor_data_t`. The collector (app/main.c, collector_thread) reads both every 100 ms,
-- drives the state machine (app/core/fsm.c) with the failures it counts, hands the samples to the
-- database (app/core/db_manager.c), to the registers of the Modbus server
-- (app/modbus/modbus_server.c) and to the metrics (app/core/metrics.c), and beats for the watchdog
-- (app/core/watchdog.c). app/core/ring_buffer.c is the queue for one producer and one consumer.
--
-- The files, each with the C file that it is about; a C function keeps its name, less a prefix that
-- the module already has:
--   Common     what C arithmetic and the parts share: words, signed numbers, bits, texts and printf
--   Sensor     `sensor_data_t` of app/include/sensor_hal.h
--   Ring       app/core/ring_buffer.c: `struct ring_buffer` as a record, its calls as functions that
--              return the result and the new ring, and in Ring.Threads the accesses of a producer
--              and a consumer one by one, in any order; Ring.StressTest is ring_buffer_test.c
--   Fsm        app/core/fsm.c: the table, the context, the transition, and in Fsm.Wait the wait
--   Watchdog   app/core/watchdog.c: a round of the monitor over the heartbeats that it reads
--   Metrics    app/core/metrics.c: the window of latencies, the percentiles and the report; in
--              Metrics.Threads recording and copying access by access
--   Sht30      kernel-drivers/sht30/sht30.c: checksum, conversion, work, probe, the two files
--   Hal        app/hal: the registry, the SHT30 (Hal.Sysfs, Hal.Sht), the MPU6050 (Hal.Mpu,
--              Hal.Evdev)
--   Mpu6050    kernel-drivers/mpu6050/mpu6050.c: bus recovery, work, probe and remove; in
--              Mpu6050.Teardown the removal call by call
--   Modbus     app/modbus/modbus_server.c: the blacklist, and in Modbus.Server a connection, the
--              clients one after the other, start and stop; Modbus.Thread is the loop of the
--              thread, Modbus.Firewall the rules of iptables, Modbus.Torn the registers access by
--              access, and Modbus.TestClient app/modbus/modbus_test_client.c
--   Collector  app/main.c, collector_thread: a round of the loop, and in Collector.Spec what the
--              rounds promise; Collector.Start is what comes before the loop
--   Database   app/core/db_manager.c: the batch of samples in front of SQLite, in Database.Open the
--              opening, in Database.Repair the data file and its backup, and in Database.Saved a
--              SQLite that may refuse any call
--   Startup    app/main.c, main: the steps of the start-up, the collector on what they leave, in
--              Startup.Alive the collector, the web server and the watchdog together, and in
--              Startup.EndToEnd the way of a measurement from the SHT30 to a client
--   Web        app/main.c, web_thread: in Web.Request the request, in Web.Pages the texts, in
--              Web.Thread the rounds, and send_http_response, which sends an answer in pieces
--
-- State is passed on explicitly. What the world answers (the I2C bus, files, the clock, libevdev,
-- libmodbus, SQLite, malloc) is an argument, so that every statement holds whatever it answers; what
-- the code asks of it, where it matters, is a log in the result. Unsigned words wrap where the code
-- lets them (`u32 n` is `n % 2 ^ 32`), a signed counter is kept as its bit pattern, and an access
-- outside an array, where the code does not rule it out, is `none`. Texts are lists of bytes; `%.1f`
-- rounds what a double of 53 bits holds. An operation under a mutex is one step. Where two threads
-- share atomic variables, in Ring.Threads, Metrics.Threads and Modbus.Torn, each access is a step,
-- and the accesses are taken in one order that both threads see; of the relaxed ones C promises that
-- order only for each variable.
--
-- There is no fuel: a loop over an array or over retries is recursion on what is left, and a loop
-- that waits for the world is recursion on the list of what the world does, so that a statement
-- about every list is one about every run.
--
-- Not modelled: log lines, thread placement, the text of alarms, and the scripts. Nothing calls
-- mpu6050_read_reg.
pub mod Common
pub mod Sensor
pub mod Ring
pub mod Fsm
pub mod Watchdog
pub mod Metrics
pub mod Sht30
pub mod Hal
pub mod Mpu6050
pub mod Modbus
pub mod Collector
pub mod Database
pub mod Web
pub mod Startup
